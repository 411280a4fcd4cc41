-- ===== src/Relayer/Tests.antt =====
-- Payments through the relayer: one with a revenue split, one sponsored and distributed, and the
-- theorems at them.
use verivyx_monorepo.Prelude.{
  ◌≡◌, ◌⊎◌, ◌≢◌, ◌↔◌, refl, true, false, if◌then◌else◌, ◌==◌, Option, none, some, List, [], ◌∷◌,
  Text, codes, Listed, All, text_eq, has,
}
use verivyx_monorepo.Prelude.Parse.{split as split_at, trim}
use verivyx_monorepo.Relayer.Types.{
  ContractCall, invoke_contract, payment, invoke_host_function, Transaction, Requirements, ok,
  wrong_amount,
}
use verivyx_monorepo.Prelude.Decimal.{pad_start}
use verivyx_monorepo.Relayer.Amount.{atomic_to_stellar, strip_zeros, format_stroops}
use verivyx_monorepo.Relayer.Amount.Laws.{IsAmountOf, atomic_to_stellar-IsAmountOf}
use verivyx_monorepo.Relayer.Validation.{
  assert_paywall_contract_allowed, parse_allowed_contracts, assert_adapter_allowed, to_stable_error,
  adapter, classify_settle_path, settlement_timeout, resolve_network_name,
}
use verivyx_monorepo.Relayer.Validation.Laws.{
  assert_paywall_contract_allowed_iff, classify_settle_path_iff,
}
use verivyx_monorepo.Relayer.Operations.{
  validate_soroban_transfer, verify_transaction, handle_verify, extract_invoked_op, single_call,
  check_transfer_call, validate_pay_call, validate_adapter_pay_op, find_split, extract_soroban_from,
  resolve_payer, verify_split, all_splits, validate_asset, all_pay,
}
use verivyx_monorepo.Relayer.Operations.Laws.{
  IsTransferTo, validate_soroban_transfer_iff, Verifies, verify_transaction-Verifies,
}
use verivyx_monorepo.Relayer.Chain.{
  poll_soroban, poll_soroban_confirmation, submit_fee_sponsor_unlocked, call_distribute_unlocked,
  submit_soroban, submit_classic, with_timeout, facilitator_lock_run, lock, unlock, send_sponsored,
  send_distribute, success, not_found, Chain, Action,
}
use verivyx_monorepo.Relayer.Settle.{
  RelayerConfig, settle_work, settle_adapter, sponsor_and_distribute, settle_paywall,
  settle_sponsored, settle_presigned, handle_settle, settled, bad_request, failure,
}
use verivyx_monorepo.Relayer.Settle.Locking.{free, released, after, settle_work_locks}
use verivyx_monorepo.Relayer.Settle.Traces.{Allowed}
use verivyx_monorepo.Relayer.Settle.Guard.{settle_work-Allowed}

relayer_all : Unit {0}
unfolding verify_transaction handle_verify extract_invoked_op single_call check_transfer_call
    validate_soroban_transfer validate_pay_call validate_adapter_pay_op find_split
    extract_soroban_from resolve_payer atomic_to_stellar assert_paywall_contract_allowed
    assert_adapter_allowed classify_settle_path to_stable_error parse_allowed_contracts
    resolve_network_name poll_soroban_confirmation submit_fee_sponsor_unlocked
    call_distribute_unlocked submit_soroban submit_classic with_timeout facilitator_lock_run
    handle_settle settle_work settle_sponsored settle_presigned settle_adapter settle_paywall
    sponsor_and_distribute poll_soroban all_pay all_splits verify_split validate_asset pad_start
    strip_zeros format_stroops has text_eq split_at trim
relayer_all = tt

abbrev split_payment : Transaction
split_payment = record {
  source = codes "GPAYER";
  operations =
      payment (record {
        code = codes "USDC";
        issuer = some (codes "GISSUER");
        destination = codes "GSHOP";
        amount = codes "0.0099000";
      })
      ∷ payment (record {
        code = codes "USDC";
        issuer = some (codes "GISSUER");
        destination = codes "GFEE";
        amount = codes "0.0001000";
      })
      ∷ [];
  signatures = 1;
}

abbrev split_required : Requirements
split_required = record {
  asset = codes "USDC:GISSUER";
  amount = codes "100000";
  split_payments = some (
      record { pay_to = codes "GSHOP"; amount = codes "99000" }
      ∷ record { pay_to = codes "GFEE"; amount = codes "1000" }
      ∷ []);
  paywall_contract = none;
  domain = none;
}

split_passes : verify_transaction split_payment split_required ≡ ok (codes "GPAYER")
unfolding relayer_all
split_passes = refl

verify_transaction-Verifies_example : Verifies split_payment split_required (codes "GPAYER")
verify_transaction-Verifies_example =
    verify_transaction-Verifies split_payment split_required (codes "GPAYER") split_passes

atomic_to_stellar-IsAmountOf_example :
    (result : Text) × (atomic_to_stellar (codes "10000") ≡ some result)
    × (atomic_to_stellar (codes "-10000") ≡ some (b'-' ∷ result))
    × IsAmountOf (codes "10000") result
atomic_to_stellar-IsAmountOf_example = atomic_to_stellar-IsAmountOf (codes "10000") refl

abbrev paywalls : List Text
paywalls = codes "CPAYWALL" ∷ codes "CSECOND" ∷ []

allowlist_parses : parse_allowed_contracts (some (codes " CPAYWALL,,CSECOND ")) ≡ paywalls
unfolding relayer_all
allowlist_parses = refl

assert_paywall_contract_allowed_iff_example :
    (assert_paywall_contract_allowed (some (codes "CSECOND")) paywalls ≡ ok (codes "CSECOND")) ↔ (
      (some (codes "CSECOND") ≡ some (codes "CSECOND"))
      × (codes "CSECOND" ≢ [])
      × Listed (codes "CSECOND") paywalls)
assert_paywall_contract_allowed_iff_example =
    assert_paywall_contract_allowed_iff (some (codes "CSECOND")) paywalls (codes "CSECOND")

abbrev transfer_call : ContractCall
transfer_call = record {
  contract_id = codes "CUSDC";
  function_name = codes "transfer";
  args = some (codes "GPAYER") ∷ some (codes "CPAYWALL") ∷ some (codes "10000") ∷ [];
}

abbrev transfer_tx : Transaction
transfer_tx = record {
  source = codes "GPAYER";
  operations = invoke_host_function (invoke_contract transfer_call) ∷ [];
  signatures = 0;
}

abbrev pay_call : ContractCall
pay_call = record transfer_call { contract_id = codes "CADAPTER"; function_name = codes "pay" }

classify_settle_path_iff_example :
    (classify_settle_path pay_call (codes "CADAPTER" ∷ []) ≡ adapter)
    ↔ (Listed (codes "CADAPTER") (codes "CADAPTER" ∷ []) × (codes "pay" ≡ codes "pay"))
classify_settle_path_iff_example = classify_settle_path_iff pay_call (codes "CADAPTER" ∷ [])

validate_soroban_transfer_iff_example :
    (validate_soroban_transfer transfer_tx (codes "CUSDC") (codes "CPAYWALL") (codes "10000")
      ≡ ok tt)
    ↔ IsTransferTo transfer_tx (codes "CUSDC") (codes "CPAYWALL") (codes "10000")
validate_soroban_transfer_iff_example =
    validate_soroban_transfer_iff transfer_tx (codes "CUSDC") (codes "CPAYWALL") (codes "10000")

abbrev cfg : RelayerConfig
cfg = record { allowed_paywall_contracts = paywalls; allowed_pay_adapters = codes "CADAPTER" ∷ [] }

abbrev required : Requirements
required = record {
  asset = codes "CUSDC";
  amount = codes "10000";
  split_payments = none;
  paywall_contract = some (codes "CPAYWALL");
  domain = some (codes "shop.example");
}

abbrev hash_of : Action → Option Text
hash_of (send_sponsored e) = some (codes "H1")
hash_of (send_distribute c d t a) = some (codes "H2")
hash_of _ = none

abbrev chain : Chain
chain = record {
  parse = λ envelope. some transfer_tx;
  has_facilitator = true;
  prepare_sponsored = λ envelope. ok tt;
  prepare_distribute = λ c d t a. ok tt;
  simulate = λ envelope. ok tt;
  sent = hash_of;
  status = λ hash attempt. if attempt == 2 then success else not_found;
  lock_free = true;
  expires = λ label. false;
}

paywall_settles : handle_settle chain cfg (λ key work. work) required none (some (codes "AAAA")) ≡ (
  lock
      ∷ send_sponsored (codes "AAAA")
      ∷ send_distribute (codes "CPAYWALL") (codes "shop.example") (codes "CUSDC") (codes "10000")
      ∷ unlock
      ∷ [],
  settled (record {
    transaction = codes "H1";
    distribute_transaction = some (codes "H2");
    payer = codes "GPAYER";
    amount = codes "10000";
  }),
)
unfolding relayer_all
paywall_settles = refl

wrong_amount_refused :
    handle_settle chain cfg
      (λ key work. work)
      (record required { amount = codes "9999" })
      none
      (some (codes "AAAA"))
    ≡ ([], bad_request wrong_amount)
unfolding relayer_all
wrong_amount_refused = refl

timer_wins :
    handle_settle
      (record chain { expires = λ label. text_eq label (codes "soroban_sponsor_submit") })
      cfg
      (λ key work. work)
      required
      none
      (some (codes "AAAA"))
    ≡ (lock ∷ send_sponsored (codes "AAAA") ∷ unlock ∷ [], failure 503 settlement_timeout)
unfolding relayer_all
timer_wins = refl

settle_work_locks_example :
    (after free (settle_work chain cfg required none transfer_tx (codes "AAAA")).0 ≡ some free)
    ⊎ (after free (settle_work chain cfg required none transfer_tx (codes "AAAA")).0
        ≡ some released)
settle_work_locks_example = settle_work_locks chain cfg required transfer_tx (codes "AAAA") none

settle_work-Allowed_example :
    All
      (Allowed chain cfg required transfer_tx (codes "AAAA"))
      (settle_work chain cfg required none transfer_tx (codes "AAAA")).0
settle_work-Allowed_example = settle_work-Allowed chain cfg required transfer_tx (codes "AAAA") none
