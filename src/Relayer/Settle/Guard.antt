-- ===== src/Relayer/Settle/Guard.antt =====
-- Proofs about /settle: its steps, and the transactions that they hand over.
use verivyx_monorepo.Prelude.{
  ◌≡◌, refl, inl, inr, subst, sym, Bool, true, false, ◌&&◌, Option, none, some, List, [], ◌∷◌, Text,
  codes, text_eq_iff, length, ◌==◌, has_iff, Listed, All, any, arith, Bool-cases, if◌then◌else◌,
}
use verivyx_monorepo.Relayer.Types.{ContractCall, Transaction, Requirements, ok}
use verivyx_monorepo.Relayer.Validation.{
  SettlePath, assert_paywall_contract_allowed, assert_adapter_allowed, adapter, legacy,
  classify_settle_path,
}
use verivyx_monorepo.Relayer.Validation.Laws.{assert_paywall_contract_allowed_iff}
use verivyx_monorepo.Relayer.Operations.{
  extract_invoked_op, single_call, validate_soroban_transfer, validate_pay_call,
  validate_adapter_pay_op, is_soroban_op,
}
use verivyx_monorepo.Relayer.Operations.Laws.{validate_soroban_transfer_iff, single_call-ok}
use verivyx_monorepo.Relayer.Chain.{
  Action, send_sponsored, send_distribute, Run, ◌>>=◌, Chain, need_facilitator,
  submit_fee_sponsor_unlocked, call_distribute_unlocked, submit_soroban, submit_classic,
  with_timeout,
}
use verivyx_monorepo.Relayer.Settle.{
  RelayerConfig, invoked, distribute_if_named, settle_adapter, sponsor_and_distribute,
  settle_paywall, route, settle_sponsored, settle_presigned, settle_work,
}
use verivyx_monorepo.Relayer.Settle.Traces.{
  IsAdapterPay, IsPaywallTransfer, IsSponsored, IsPresigned, Allowed, All-bind, All-quietly,
  All-with_timeout, with_timeout-ok, All-facilitator_lock_run, IsConfirmed, after_send-ok,
}

adapter-Listed :
    (id : Text) (allowed : List Text)
    → assert_adapter_allowed id allowed ≡ ok tt
    → Listed id allowed
unfolding assert_adapter_allowed
adapter-Listed [] allowed h = cc
adapter-Listed (c ∷ t) allowed h = ground (arith, has_iff allowed (c ∷ t))

call_pays :
    (call : ContractCall) (id : Text)
    → validate_pay_call call id ≡ ok tt
    → (call.contract_id ≡ id) × (call.function_name ≡ codes "pay") × (length call.args ≡ 3)
unfolding validate_pay_call
call_pays call id h =
    ground (arith, text_eq_iff call.contract_id id, text_eq_iff call.function_name (codes "pay"))

pay_checks :
    (tx : Transaction) (id : Text)
    → validate_adapter_pay_op tx id ≡ ok tt
    → (call : ContractCall) × (single_call tx.operations ≡ ok call)
      × (validate_pay_call call id ≡ ok tt)
unfolding validate_adapter_pay_op
pay_checks tx id h = ground arith

adapter-IsAdapterPay :
    (cfg : RelayerConfig) (tx : Transaction) (id : Text)
    → assert_adapter_allowed id cfg.allowed_pay_adapters ≡ ok tt
    → validate_adapter_pay_op tx id ≡ ok tt
    → IsAdapterPay cfg tx
adapter-IsAdapterPay cfg tx id listed valid =
    let (call, single, paid) = pay_checks tx id valid in
    let (same, function, three) = call_pays call id paid in
    record {
      call = call;
      single = single_call-ok tx.operations call single;
      listed =
          subst (λ x. Listed x cfg.allowed_pay_adapters) (sym same)
            (adapter-Listed id cfg.allowed_pay_adapters listed);
      function = function;
      three = three;
    }

-- The steps of a submission by the facilitator.
module _ (chain : Chain) (P : Action → Type 0) where
  All-need_facilitator :
      {B : Type 0} (f : Unit {0} → Run B) → All P (f tt).0 → All P (need_facilitator chain >>= f).0
  All-need_facilitator f h = elim (Bool-cases chain.has_facilitator) [
    | inl set ↦ rw set h
    | inr unset ↦ rw unset tt
  ]

  All-submit_fee_sponsor_unlocked :
      (envelope : Text)
      → P (send_sponsored envelope)
      → All P (submit_fee_sponsor_unlocked chain envelope).0
  unfolding submit_fee_sponsor_unlocked
  All-submit_fee_sponsor_unlocked envelope p =
      All-need_facilitator _ (All-quietly P (chain.prepare_sponsored envelope) _ λ _ _. (p, tt))

  All-call_distribute_unlocked :
      (c d t a : Text)
      → P (send_distribute c d t a)
      → All P (call_distribute_unlocked chain c d t a).0
  unfolding call_distribute_unlocked
  All-call_distribute_unlocked c d t a p =
      All-need_facilitator _ (All-quietly P (chain.prepare_distribute c d t a) _ λ _ _. (p, tt))

sponsored-IsConfirmed :
    (chain : Chain) (envelope hash : Text)
    → (submit_fee_sponsor_unlocked chain envelope).1 ≡ ok hash
    → IsConfirmed chain (send_sponsored envelope) hash
unfolding submit_fee_sponsor_unlocked
sponsored-IsConfirmed chain envelope hash h =
    after_send-ok chain (chain.sent (send_sponsored envelope)) hash (ground arith)

module _ (chain : Chain) (cfg : RelayerConfig) (requirements : Requirements) (tx : Transaction)
    (envelope : Text) where
  abbrev Sends : {A : Type 0} → Run A → Type 0
  Sends m = All (Allowed chain cfg requirements tx envelope) m.0

  Sends-settle_adapter :
      IsSponsored chain tx
      → (call : ContractCall) → Sends (settle_adapter chain cfg requirements tx envelope call)
  unfolding settle_adapter
  Sends-settle_adapter due call =
      let P = Allowed chain cfg requirements tx envelope in
      All-quietly P (assert_adapter_allowed call.contract_id cfg.allowed_pay_adapters) _ λ _ listed.
        All-quietly P (validate_adapter_pay_op tx call.contract_id) _ λ _ valid.
          All-with_timeout P chain _ _ (
            All-facilitator_lock_run P chain _ tt tt (
              All-submit_fee_sponsor_unlocked chain P envelope
                (refl, due, inl (adapter-IsAdapterPay cfg tx call.contract_id listed valid))))

  Sends-distribute_if_named :
      (contract hash : Text)
      → IsPaywallTransfer cfg requirements tx contract
      → IsConfirmed chain (send_sponsored envelope) hash
      → (domain : Option Text) → requirements.domain ≡ domain
      → Sends (distribute_if_named chain requirements contract domain)
  Sends-distribute_if_named contract hash paid confirmed none same = tt
  Sends-distribute_if_named contract hash paid confirmed (some []) same = tt
  Sends-distribute_if_named contract hash paid confirmed (some (c ∷ t)) same =
      let P = Allowed chain cfg requirements tx envelope in
      All-bind P
        (with_timeout chain (codes "soroban_distribute")
          (call_distribute_unlocked chain contract (c ∷ t) requirements.asset requirements.amount))
        _
        (All-with_timeout P chain _ _ (
          All-call_distribute_unlocked chain P contract (c ∷ t) requirements.asset
            requirements.amount (paid, refl, refl, same, (hash, confirmed.0, confirmed.1))))
        λ _ _. tt

  Sends-sponsor_and_distribute :
      IsSponsored chain tx
      → (contract : Text) → IsPaywallTransfer cfg requirements tx contract
      → Sends (sponsor_and_distribute chain requirements envelope contract)
  unfolding sponsor_and_distribute
  Sends-sponsor_and_distribute due contract paid =
      let P = Allowed chain cfg requirements tx envelope in
      let submission = submit_fee_sponsor_unlocked chain envelope in
      All-bind P (with_timeout chain (codes "soroban_sponsor_submit") submission) _
        (All-with_timeout P chain _ submission
          (All-submit_fee_sponsor_unlocked chain P envelope (refl, due, inr (contract, paid))))
        λ hash went.
          All-bind P (distribute_if_named chain requirements contract requirements.domain) _
            (Sends-distribute_if_named contract hash paid
              (sponsored-IsConfirmed chain envelope hash
                (with_timeout-ok chain (codes "soroban_sponsor_submit") submission hash went))
              requirements.domain refl)
            λ _ _. tt

  paywall-IsPaywallTransfer :
      (contract : Text)
      → assert_paywall_contract_allowed requirements.paywall_contract cfg.allowed_paywall_contracts
        ≡ ok contract
      → validate_soroban_transfer tx requirements.asset contract requirements.amount ≡ ok tt
      → IsPaywallTransfer cfg requirements tx contract
  paywall-IsPaywallTransfer contract allowed valid =
      let (required, _, listed) =
        (assert_paywall_contract_allowed_iff requirements.paywall_contract
            cfg.allowed_paywall_contracts contract).0
          allowed in
      record {
        required = required;
        listed = listed;
        transfer =
            (validate_soroban_transfer_iff tx requirements.asset contract requirements.amount).0
              valid;
      }

  Sends-settle_paywall :
      IsSponsored chain tx → Sends (settle_paywall chain cfg requirements tx envelope)
  unfolding settle_paywall
  Sends-settle_paywall due =
      let P = Allowed chain cfg requirements tx envelope in
      All-quietly P
        (assert_paywall_contract_allowed requirements.paywall_contract
          cfg.allowed_paywall_contracts)
        _
        λ contract allowed.
          All-quietly P
            (validate_soroban_transfer tx requirements.asset contract requirements.amount) _
            λ _ valid. All-facilitator_lock_run P chain _ tt tt (
              Sends-sponsor_and_distribute due contract
                (paywall-IsPaywallTransfer contract allowed valid))

  Sends-route :
      IsSponsored chain tx
      → (call : ContractCall) (path : SettlePath)
      → Sends (route chain cfg requirements tx envelope call path)
  Sends-route due call adapter =
      All-bind (Allowed chain cfg requirements tx envelope)
        (settle_adapter chain cfg requirements tx envelope call) _ (Sends-settle_adapter due call)
        λ _ _. tt
  Sends-route due call legacy = Sends-settle_paywall due

  Sends-settle_sponsored :
      IsSponsored chain tx → Sends (settle_sponsored chain cfg requirements tx envelope)
  unfolding settle_sponsored
  Sends-settle_sponsored due =
      All-quietly (Allowed chain cfg requirements tx envelope)
        (invoked (extract_invoked_op tx.operations)) _
        λ call _. Sends-route due call (classify_settle_path call cfg.allowed_pay_adapters)

  Sends-settle_presigned :
      (soroban : Bool)
      → any is_soroban_op tx.operations ≡ soroban
      → IsPresigned chain tx
      → Sends (settle_presigned chain soroban envelope)
  unfolding settle_presigned submit_soroban submit_classic
  Sends-settle_presigned true kind own =
      let P = Allowed chain cfg requirements tx envelope in
      All-quietly P (chain.simulate envelope) _ λ _ simulated.
        All-bind P (with_timeout chain (codes "soroban_submit") (submit_soroban chain envelope)) _
          (All-with_timeout P chain _ _ ((refl, kind, own, simulated), tt)) λ _ _. tt
  Sends-settle_presigned false kind own =
      let P = Allowed chain cfg requirements tx envelope in
      All-bind P (with_timeout chain (codes "horizon_submit") (submit_classic chain envelope)) _
        (All-with_timeout P chain _ _ ((refl, kind), tt)) λ _ _. tt

  branch-Sends :
      {A : Type 0} (test : Bool) (m n : Run A)
      → (test ≡ true → Sends m)
      → (test ≡ false → Sends n)
      → Sends (if test then m else n)
  branch-Sends true m n h k = h refl
  branch-Sends false m n h k = k refl

  -- Whatever the work of /settle meets, what it hands to a server is allowed. The facilitator pays
  -- only for the presented transaction, and only if that is unsigned and a single `pay` call on a listed
  -- adapter or a single transfer of the full amount to the listed paywall contract; it distributes
  -- only that amount, from that contract, after it saw its submission of the transfer confirmed;
  -- a transaction is sent as it stands only if it is signed, has no Soroban operation, or there is
  -- no facilitator, and then to the server for its kind, a Soroban one after a simulation that
  -- succeeded.
  pub settle_work-Allowed :
      (declared : Option Text)
      → All
          (Allowed chain cfg requirements tx envelope)
          (settle_work chain cfg requirements declared tx envelope).0
  unfolding settle_work
  settle_work-Allowed declared =
      All-bind (Allowed chain cfg requirements tx envelope)
        (if any is_soroban_op tx.operations && tx.signatures == 0 && chain.has_facilitator
          then settle_sponsored chain cfg requirements tx envelope
          else settle_presigned chain (any is_soroban_op tx.operations) envelope)
        _
        (branch-Sends {A = Text × Option Text}
          (any is_soroban_op tx.operations && tx.signatures == 0 && chain.has_facilitator)
          (settle_sponsored chain cfg requirements tx envelope)
          (settle_presigned chain (any is_soroban_op tx.operations) envelope)
          (λ due. Sends-settle_sponsored (ground arith))
          (λ own. Sends-settle_presigned (any is_soroban_op tx.operations) refl (ground arith)))
        λ _ _. tt
