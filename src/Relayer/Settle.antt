-- ===== src/Relayer/Settle.antt =====
-- POST /settle of index.ts: the checks before deduplication, the work that is deduplicated, and
-- the replies.
pub mod Locking
pub mod Traces
pub mod Guard
use verivyx_monorepo.Prelude.{
  ℕ, Bool, true, false, not, ◌&&◌, Option, none, some, List, [], ◌∷◌, Text, codes, ◌==◌, any,
  if◌then◌else◌,
}
use verivyx_monorepo.Relayer.Types.{
  ContractCall, Transaction, Requirements, Rejection, missing_transaction, invalid_xdr,
  no_invoked_op, Outcome, ok, rejected, thrown,
}
use verivyx_monorepo.Relayer.Validation.{
  assert_paywall_contract_allowed, assert_adapter_allowed, StableReason, to_stable_error,
  SettlePath, adapter, legacy, classify_settle_path,
}
use verivyx_monorepo.Relayer.Operations.{
  extract_invoked_op, extract_soroban_from, resolve_payer, validate_soroban_transfer,
  validate_adapter_pay_op, validate_asset, is_soroban_op, verify_split,
}
use verivyx_monorepo.Relayer.Chain.{
  Action, Run, ◌>>=◌, ◌>>◌, done, quietly, Chain, submit_fee_sponsor_unlocked,
  call_distribute_unlocked, submit_soroban, submit_classic, with_timeout, facilitator_lock_run,
}
use verivyx_monorepo.Relayer.Types as Types

-- The two allowlists.
pub record RelayerConfig : Type 0 where
  pub allowed_paywall_contracts : List Text
  pub allowed_pay_adapters : List Text

pub record SettleResult : Type 0 where
  pub transaction : Text
  pub distribute_transaction : Option Text
  pub payer : Text
  pub amount : Text

abbrev pub result_of : Requirements → Option Text → Transaction → Text → Option Text → SettleResult
result_of requirements declared tx hash distributed = record {
  transaction = hash;
  distribute_transaction = distributed;
  payer = resolve_payer declared (extract_soroban_from tx.operations) tx.source;
  amount = requirements.amount;
}

abbrev pub invoked : Option ContractCall → Outcome ContractCall
invoked none = rejected no_invoked_op
invoked (some call) = ok call

abbrev non_empty_text : Text → Bool
non_empty_text [] = false
non_empty_text (c ∷ t) = true

-- `if (paywallContract && distributeDomain)`.
abbrev pub distribute_if_named : Chain → Requirements → Text → Option Text → Run (Option Text)
distribute_if_named chain requirements contract none = done none
distribute_if_named chain requirements contract (some []) = done none
distribute_if_named chain requirements contract (some (c ∷ t)) = do
  hash ←
      with_timeout chain (codes "soroban_distribute")
        (call_distribute_unlocked chain contract (c ∷ t) requirements.asset requirements.amount)
  done (some hash)

-- The adapter path: sponsored, never distributed.
unfoldable pub settle_adapter :
    Chain → RelayerConfig → Requirements → Transaction → Text → ContractCall → Run Text
settle_adapter chain cfg requirements tx envelope call = do
  quietly (assert_adapter_allowed call.contract_id cfg.allowed_pay_adapters)
  quietly (validate_adapter_pay_op tx call.contract_id)
  with_timeout chain (codes "soroban_sponsor_submit")
      (facilitator_lock_run chain (submit_fee_sponsor_unlocked chain envelope))

-- The submission and the distribution of the paywall path, under one hold of the lock.
unfoldable pub sponsor_and_distribute :
    Chain → Requirements → Text → Text → Run (Text × Option Text)
sponsor_and_distribute chain requirements envelope contract = do
  hash ←
      with_timeout chain (codes "soroban_sponsor_submit")
        (submit_fee_sponsor_unlocked chain envelope)
  distributed ← distribute_if_named chain requirements contract requirements.domain
  done (hash, distributed)

unfoldable pub settle_paywall :
    Chain → RelayerConfig → Requirements → Transaction → Text → Run (Text × Option Text)
unfolding sponsor_and_distribute
settle_paywall chain cfg requirements tx envelope = do
  contract ←
      quietly (
        assert_paywall_contract_allowed requirements.paywall_contract cfg.allowed_paywall_contracts)
  quietly (validate_soroban_transfer tx requirements.asset contract requirements.amount)
  facilitator_lock_run chain (sponsor_and_distribute chain requirements envelope contract)

abbrev pub route :
    Chain
    → RelayerConfig
    → Requirements
    → Transaction
    → Text
    → ContractCall
    → SettlePath
    → Run (Text × Option Text)
route chain cfg requirements tx envelope call adapter = do
  hash ← settle_adapter chain cfg requirements tx envelope call
  done (hash, none)
route chain cfg requirements tx envelope call legacy =
    settle_paywall chain cfg requirements tx envelope

unfoldable pub settle_sponsored :
    Chain → RelayerConfig → Requirements → Transaction → Text → Run (Text × Option Text)
unfolding settle_adapter settle_paywall
settle_sponsored chain cfg requirements tx envelope = do
  call ← quietly (invoked (extract_invoked_op tx.operations))
  route chain cfg requirements tx envelope call (classify_settle_path call cfg.allowed_pay_adapters)

unfoldable pub settle_presigned : Chain → Bool → Text → Run (Text × Option Text)
settle_presigned chain true envelope = do
  quietly (chain.simulate envelope)
  hash ← with_timeout chain (codes "soroban_submit") (submit_soroban chain envelope)
  done (hash, none)
settle_presigned chain false envelope = do
  hash ← with_timeout chain (codes "horizon_submit") (submit_classic chain envelope)
  done (hash, none)

-- The function that is given to settleOnce.
unfoldable pub settle_work :
    Chain → RelayerConfig → Requirements → Option Text → Transaction → Text → Run SettleResult
unfolding settle_sponsored settle_presigned
settle_work chain cfg requirements declared tx envelope =
    let is_soroban = any is_soroban_op tx.operations in
    let sponsored = is_soroban && tx.signatures == 0 && chain.has_facilitator in
    do
      (hash, distributed) ←
          if sponsored
          then settle_sponsored chain cfg requirements tx envelope
          else settle_presigned chain is_soroban envelope
      done (result_of requirements declared tx hash distributed)

pub data SettleReply : Type 0 where
  settled : SettleResult → SettleReply
  bad_request : Rejection → SettleReply
  failure : (status : ℕ) → StableReason → SettleReply

abbrev pub settle_reply : Outcome SettleResult → SettleReply
settle_reply (ok result) = settled result
settle_reply (rejected reason) = bad_request reason
settle_reply (thrown message) =
    let (status, reason) = to_stable_error message in failure status reason

-- The first `try`: every error that is thrown in it is "Invalid XDR".
abbrev pub admitted : Option Transaction → Requirements → Outcome Transaction
admitted none requirements = rejected invalid_xdr
admitted (some tx) requirements =
    Types.◌>>=◌
      (Types.◌>>◌ (verify_split requirements.split_payments tx.operations)
        (validate_asset tx requirements.asset))
      (λ _. ok tx)

abbrev pub with_transaction :
    Outcome Transaction → (Transaction → Run SettleResult) → List Action × SettleReply
with_transaction (rejected reason) work = ([], bad_request reason)
with_transaction (thrown message) work = ([], bad_request invalid_xdr)
with_transaction (ok tx) work = let (trace, result) = work tx in (trace, settle_reply result)

-- `once` is settleOnce under the hash of the envelope: it runs the work or answers from its cache.
unfoldable pub handle_settle :
    Chain
    → RelayerConfig
    → (Text → Run SettleResult → Run SettleResult)
    → Requirements
    → Option Text
    → Option Text
    → List Action × SettleReply
unfolding settle_work
handle_settle chain cfg once requirements declared none = ([], bad_request missing_transaction)
handle_settle chain cfg once requirements declared (some []) = ([], bad_request missing_transaction)
handle_settle chain cfg once requirements declared (some (c ∷ t)) =
    with_transaction (admitted (chain.parse (c ∷ t)) requirements)
      λ tx. once (c ∷ t) (settle_work chain cfg requirements declared tx (c ∷ t))
