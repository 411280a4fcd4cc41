-- ===== src/Facilitator/Events.antt =====
-- validateSimulationEvents: the transfers among the events of a simulation.
use verivyx_monorepo.Prelude.{not, some, List, [], ◌∷◌, Text, codes, text_eq}
use verivyx_monorepo.Prelude.Int.{ℤ}
use verivyx_monorepo.Facilitator.Types.{
  Native, str, big, native_eq, Topic, ContractEvent, DiagnosticEvent, contract, other_event, broken,
  event_not_transfer, event_missing_contract_id, event_wrong_asset, no_transfer_events,
  multiple_transfers, event_wrong_from, event_wrong_to, event_wrong_amount, unexpected_verify_error,
  Checked, go, stop, ◌>>=◌, ◌>>◌, reject_if, expect,
}

pub record TransferEvent : Type 0 where
  pub sender : Native
  pub to : Native
  pub amount : Native

-- The body of the loop for a contract event: its topics are `["transfer", from, to]`.
unfoldable pub read_transfer : Native → Text → List Topic → ContractEvent → Checked TransferEvent
read_transfer payer asset (first ∷ second ∷ third ∷ _) event = do
  symbol ← expect first.symbol event_not_transfer (some payer)
  reject_if (not (text_eq symbol (codes "transfer"))) event_not_transfer (some payer)
  contract_id ← expect event.contract_id event_missing_contract_id (some payer)
  reject_if (not (text_eq contract_id asset)) event_wrong_asset (some payer)
  sender ← expect second.native unexpected_verify_error (some payer)
  to ← expect third.native unexpected_verify_error (some payer)
  amount ← expect event.payload unexpected_verify_error (some payer)
  go (record { sender = sender; to = to; amount = amount })
read_transfer payer asset _ event = stop event_not_transfer (some payer)

-- The loop over the events; the transfers are pushed in order.
unfoldable pub collect_transfers :
    Native → Text → List DiagnosticEvent → Checked (List TransferEvent)
unfolding read_transfer
collect_transfers payer asset [] = go []
collect_transfers payer asset (other_event ∷ events) = collect_transfers payer asset events
collect_transfers payer asset (broken ∷ events) = stop unexpected_verify_error (some payer)
collect_transfers payer asset (contract event ∷ events) = do
  transfer ← read_transfer payer asset event.topics event
  transfers ← collect_transfers payer asset events
  go (transfer ∷ transfers)

unfoldable pub check_transfers : Native → Text → ℤ → List TransferEvent → Checked (Unit {0})
check_transfers payer to amount [] = stop no_transfer_events (some payer)
check_transfers payer to amount (_ ∷ _ ∷ _) = stop multiple_transfers (some payer)
check_transfers payer to amount (event ∷ []) = do
  reject_if (not (native_eq event.sender payer)) event_wrong_from (some payer)
  reject_if (not (native_eq event.to (str to))) event_wrong_to (some payer)
  reject_if (not (native_eq event.amount (big amount))) event_wrong_amount (some payer)

unfoldable pub validate_simulation_events :
    List DiagnosticEvent → Native → Text → ℤ → Text → Checked (Unit {0})
unfolding collect_transfers check_transfers
validate_simulation_events events payer to amount asset =
    collect_transfers payer asset events >>= check_transfers payer to amount
