-- ===== src/Facilitator/Effects.antt =====
-- What the simulation's events and the authorization entries are when `verify` lets them pass.
use verivyx_monorepo.Prelude.{
  ◌≡◌, refl, subst, true, some, List, [], ◌∷◌, Text, codes, text_eq, text_eq_iff, arith,
}
use verivyx_monorepo.Prelude.Int.{ℤ}
use verivyx_monorepo.Facilitator.Types.{
  Native, str, big, native_eq_sound, Topic, ContractEvent, DiagnosticEvent, contract, other_event,
  broken, go,
}
use verivyx_monorepo.Facilitator.Events.{
  TransferEvent, read_transfer, collect_transfers, check_transfers, validate_simulation_events,
}

-- The contract events of a simulation, in order.
abbrev pub contract_events : List DiagnosticEvent → List ContractEvent
contract_events [] = []
contract_events (contract event ∷ events) = event ∷ contract_events events
contract_events (_ ∷ events) = contract_events events

-- A token transfer of CAP-46: topics `transfer`, sender and recipient; the amount as data.
pub record IsTransfer (asset : Text) (sender to amount : Native) (event : ContractEvent)
    : Type 0 where
  pub first : Topic
  pub second : Topic
  pub third : Topic
  pub others : List Topic
  pub topics : event.topics ≡ first ∷ second ∷ third ∷ others
  pub named : first.symbol ≡ some (codes "transfer")
  pub emitter : event.contract_id ≡ some asset
  pub from_sender : second.native ≡ some sender
  pub to_recipient : third.native ≡ some to
  pub of_amount : event.payload ≡ some amount

module _ (payer : Native) (asset : Text) where
  read_checks :
      (a b c : Topic) (rest : List Topic) (event : ContractEvent) (transfer : TransferEvent)
      → read_transfer payer asset (a ∷ b ∷ c ∷ rest) event ≡ go transfer
      → (symbol : Text) × (id : Text) × (a.symbol ≡ some symbol)
        × (event.contract_id ≡ some id)
        × (text_eq symbol (codes "transfer") ≡ true)
        × (text_eq id asset ≡ true)
        × (b.native ≡ some transfer.sender)
        × (c.native ≡ some transfer.to)
        × (event.payload ≡ some transfer.amount)
  unfolding read_transfer
  read_checks a b c rest event transfer h = ground arith

  read_transfer-IsTransfer :
      (topics : List Topic) (event : ContractEvent) (transfer : TransferEvent)
      → event.topics ≡ topics
      → read_transfer payer asset topics event ≡ go transfer
      → IsTransfer asset transfer.sender transfer.to transfer.amount event
  unfolding read_transfer
  read_transfer-IsTransfer (a ∷ b ∷ c ∷ rest) event transfer e h =
      let (symbol, id, has_symbol, has_id, named, emitter, sender, to, amount) =
        read_checks a b c rest event transfer h in
      record {
        first = a;
        second = b;
        third = c;
        others = rest;
        topics = e;
        named = rw (← (text_eq_iff symbol (codes "transfer")).0 named) has_symbol;
        emitter = rw (← (text_eq_iff id asset).0 emitter) has_id;
        from_sender = sender;
        to_recipient = to;
        of_amount = amount;
      }
  read_transfer-IsTransfer (a ∷ b ∷ []) event transfer e h = cc
  read_transfer-IsTransfer (a ∷ []) event transfer e h = cc
  read_transfer-IsTransfer [] event transfer e h = cc

  abbrev Reads : List ContractEvent → List TransferEvent → Type 0
  Reads [] [] = Unit
  Reads (event ∷ events) (t ∷ ts) =
      (read_transfer payer asset event.topics event ≡ go t) × Reads events ts
  Reads _ _ = ⊥

  collect_cons :
      (event : ContractEvent) (events : List DiagnosticEvent) (ts : List TransferEvent)
      → collect_transfers payer asset (contract event ∷ events) ≡ go ts
      → (t : TransferEvent) × (rest : List TransferEvent) × (read_transfer payer asset event.topics
            event
          ≡ go t)
        × (collect_transfers payer asset events ≡ go rest)
        × (t ∷ rest ≡ ts)
  unfolding collect_transfers
  collect_cons event events ts h = ground arith

  collect_transfers-Reads :
      (events : List DiagnosticEvent) (ts : List TransferEvent)
      → collect_transfers payer asset events ≡ go ts
      → Reads (contract_events events) ts
  unfolding collect_transfers
  collect_transfers-Reads [] [] h = tt
  collect_transfers-Reads [] (t ∷ ts) h = cc
  collect_transfers-Reads (other_event ∷ events) ts h = collect_transfers-Reads events ts h
  collect_transfers-Reads (broken ∷ events) ts h = cc
  collect_transfers-Reads (contract event ∷ events) ts h =
      let (t, rest, read, collected, same) = collect_cons event events ts h in
      subst (Reads (event ∷ contract_events events)) same
        (read, collect_transfers-Reads events rest collected)

  one_read :
      (events : List ContractEvent) (t : TransferEvent)
      → Reads events (t ∷ [])
      → (event : ContractEvent) × (events ≡ event ∷ [])
        × (read_transfer payer asset event.topics event ≡ go t)
  one_read [] t h = elim h [ ]
  one_read (event ∷ []) t (read, _) = (event, refl, read)
  one_read (event ∷ _ ∷ _) t (read, h) = elim h [ ]

  check_one :
      (to : Text) (amount : ℤ) (ts : List TransferEvent)
      → check_transfers payer to amount ts ≡ go tt
      → (t : TransferEvent) × (ts ≡ t ∷ [])
        × (t.sender ≡ payer)
        × (t.to ≡ str to)
        × (t.amount ≡ big amount)
  unfolding check_transfers
  check_one to amount (t ∷ []) h = (
    t,
    refl,
    native_eq_sound t.sender payer (ground arith),
    native_eq_sound t.to (str to) (ground arith),
    native_eq_sound t.amount (big amount) (ground arith),
  )
  check_one to amount [] h = cc
  check_one to amount (_ ∷ _ ∷ _) h = cc

  validated :
      (events : List DiagnosticEvent) (to : Text) (amount : ℤ)
      → validate_simulation_events events payer to amount asset ≡ go tt
      → (ts : List TransferEvent) × (collect_transfers payer asset events ≡ go ts)
        × (check_transfers payer to amount ts ≡ go tt)
  unfolding validate_simulation_events
  validated events to amount h = ground arith

  -- The simulation emits one contract event: the transfer that was asked for.
  pub validate_simulation_events-IsTransfer :
      (events : List DiagnosticEvent) (to : Text) (amount : ℤ)
      → validate_simulation_events events payer to amount asset ≡ go tt
      → (event : ContractEvent) × (contract_events events ≡ event ∷ [])
        × IsTransfer asset payer (str to) (big amount) event
  validate_simulation_events-IsTransfer events to amount h =
      let (ts, collected, checked) = validated events to amount h in
      let (t, single, sender, recipient, paid) = check_one to amount ts checked in
      let reads =
        subst (Reads (contract_events events)) single
          (collect_transfers-Reads events ts collected) in
      let (event, alone, read) = one_read (contract_events events) t reads in
      let found = read_transfer-IsTransfer event.topics event t refl read in
      (event, alone, rw (sender, recipient, paid) at found)
