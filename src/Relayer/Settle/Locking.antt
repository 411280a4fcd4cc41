-- ===== src/Relayer/Settle/Locking.antt =====
-- Proofs about /settle: the facilitator lock along a settlement.
use verivyx_monorepo.Prelude.{
  ◌≡◌, ◌⊎◌, ap, refl, inl, inr, Bool, true, false, ◌&&◌, Option, none, some, List, [], ◌∷◌, ◌++◌,
  Text, codes, ◌==◌, any, arith, Bool-cases, Option-cases, if◌then◌else◌,
}
use verivyx_monorepo.Relayer.Types.{
  ContractCall, Transaction, Requirements, Outcome, ok, rejected, thrown,
}
use verivyx_monorepo.Relayer.Validation.{
  assert_paywall_contract_allowed, assert_adapter_allowed, adapter, legacy, SettlePath,
  classify_settle_path,
}
use verivyx_monorepo.Relayer.Operations.{
  extract_invoked_op, validate_soroban_transfer, validate_adapter_pay_op, is_soroban_op,
}
use verivyx_monorepo.Relayer.Chain.{
  Action, lock, unlock, send_sponsored, send_distribute, send_soroban, send_classic, Run, ◌>>=◌,
  done, quietly, Chain, need_facilitator, submit_fee_sponsor_unlocked, call_distribute_unlocked,
  submit_soroban, submit_classic, with_timeout, facilitator_lock_run,
}
use verivyx_monorepo.Relayer.Settle.{
  RelayerConfig, result_of, invoked, distribute_if_named, settle_adapter, sponsor_and_distribute,
  settle_paywall, route, settle_sponsored, settle_presigned, settle_work,
}

-- Before the lock is taken, while it is held, and after it.
pub data Phase : Type 0 where
  free held released : Phase

-- Who sends from the facilitator's account holds the lock; it is taken at most once, and released
-- only when taken.
abbrev pub lock_step : Phase → Action → Option Phase
lock_step free lock = some held
lock_step held unlock = some released
lock_step held (send_sponsored e) = some held
lock_step held (send_distribute c d t a) = some held
lock_step phase (send_soroban e) = some phase
lock_step phase (send_classic e) = some phase
lock_step _ _ = none

abbrev pub after : Phase → List Action → Option Phase
after phase [] = some phase
after phase (action ∷ trace) = elim (lock_step phase action) [
  | none ↦ none
  | some now ↦ after now trace
]

after-append :
    (a b c : Phase) (xs ys : List Action)
    → after a xs ≡ some b
    → after b ys ≡ some c
    → after a (xs ++ ys) ≡ some c
after-append a b c [] ys h k = ground arith
after-append a b c (x ∷ xs) ys h k = elim (Option-cases (lock_step a x)) [
  | inl stuck ↦ absurd (ground arith)
  | inr (now, stepped) ↦ ground (arith, after-append now b c xs ys)
]

-- The steps neither take nor release the lock.
abbrev Keeps : {A : Type 0} → Phase → Run A → Type 0
Keeps phase m = after phase m.0 ≡ some phase

-- The steps take the lock once and release it, or do not take it.
abbrev Locks : {A : Type 0} → Run A → Type 0
Locks m = (after free m.0 ≡ some free) ⊎ (after free m.0 ≡ some released)

Keeps-bind :
    {A B : Type 0} (phase : Phase) (m : Run A) (f : A → Run B)
    → Keeps phase m
    → ((a : A) → Keeps phase (f a))
    → Keeps phase (m >>= f)
Keeps-bind phase (trace, ok a) f h k = after-append phase phase phase trace (f a).0 h (k a)
Keeps-bind phase (trace, rejected reason) f h k = h
Keeps-bind phase (trace, thrown message) f h k = h

-- Nothing is sent before the steps that lock, or nothing after them.
Locks-after :
    {A B : Type 0} (m : Outcome A) (f : A → Run B)
    → ((a : A) → Locks (f a))
    → Locks (quietly m >>= f)
Locks-after (ok a) f k = k a
Locks-after (rejected reason) f k = inl refl
Locks-after (thrown message) f k = inl refl

append-none : (xs : List Action) → xs ++ [] ≡ xs
append-none [] = refl
append-none (x ∷ xs) = ap (λ t. x ∷ t) (append-none xs)

Locks-before : {A B : Type 0} (m : Run A) (f : A → B) → Locks m → Locks (m >>= λ a. done (f a))
Locks-before (trace, ok a) f h = rw (append-none trace) h
Locks-before (trace, rejected reason) f h = h
Locks-before (trace, thrown message) f h = h

Keeps-with_timeout :
    {A : Type 0} (phase : Phase) (chain : Chain) (label : Text) (m : Run A)
    → Keeps phase m
    → Keeps phase (with_timeout chain label m)
unfolding with_timeout
Keeps-with_timeout phase chain label m h = ground arith

Locks-with_timeout :
    {A : Type 0} (chain : Chain) (label : Text) (m : Run A)
    → Locks m
    → Locks (with_timeout chain label m)
unfolding with_timeout
Locks-with_timeout chain label m h = elim (Bool-cases (chain.expires label)) [
  | inl late ↦ rw late h
  | inr timely ↦ rw timely h
]

Locks-facilitator_lock_run :
    {A : Type 0} (chain : Chain) (m : Run A) → Keeps held m → Locks (facilitator_lock_run chain m)
unfolding facilitator_lock_run
Locks-facilitator_lock_run chain m h = elim (Bool-cases chain.lock_free) [
  | inl open_lock ↦ rw open_lock (inr (after-append held held released m.0 (unlock ∷ []) h refl))
  | inr busy ↦ rw busy (inl refl)
]

need_facilitator-quiet : (chain : Chain) → (need_facilitator chain).0 ≡ []
need_facilitator-quiet chain = ground arith

Keeps-submit_fee_sponsor_unlocked :
    (chain : Chain) (envelope : Text) → Keeps held (submit_fee_sponsor_unlocked chain envelope)
unfolding submit_fee_sponsor_unlocked
Keeps-submit_fee_sponsor_unlocked chain envelope =
    Keeps-bind held (need_facilitator chain) _ (rw (need_facilitator-quiet chain))
      λ _. Keeps-bind held (quietly (chain.prepare_sponsored envelope)) _ refl λ _. refl

Keeps-call_distribute_unlocked :
    (chain : Chain) (c d t a : Text) → Keeps held (call_distribute_unlocked chain c d t a)
unfolding call_distribute_unlocked
Keeps-call_distribute_unlocked chain c d t a =
    Keeps-bind held (need_facilitator chain) _ (rw (need_facilitator-quiet chain))
      λ _. Keeps-bind held (quietly (chain.prepare_distribute c d t a)) _ refl λ _. refl

Keeps-distribute_if_named :
    (chain : Chain) (requirements : Requirements) (contract : Text) (domain : Option Text)
    → Keeps held (distribute_if_named chain requirements contract domain)
Keeps-distribute_if_named chain requirements contract none = refl
Keeps-distribute_if_named chain requirements contract (some []) = refl
Keeps-distribute_if_named chain requirements contract (some (c ∷ t)) =
    Keeps-bind held
      (with_timeout chain (codes "soroban_distribute")
        (call_distribute_unlocked chain contract (c ∷ t) requirements.asset requirements.amount))
      _ (Keeps-with_timeout held chain _ _ (Keeps-call_distribute_unlocked chain _ _ _ _)) λ _. refl

module _ (chain : Chain) (cfg : RelayerConfig) (requirements : Requirements) (tx : Transaction)
    (envelope : Text) where
  Locks-settle_adapter :
      (call : ContractCall) → Locks (settle_adapter chain cfg requirements tx envelope call)
  unfolding settle_adapter
  Locks-settle_adapter call =
      Locks-after (assert_adapter_allowed call.contract_id cfg.allowed_pay_adapters) _ λ _.
        Locks-after (validate_adapter_pay_op tx call.contract_id) _ λ _.
          Locks-with_timeout chain _ _
            (Locks-facilitator_lock_run chain _ (Keeps-submit_fee_sponsor_unlocked chain envelope))

  Keeps-sponsor_and_distribute :
      (contract : Text) → Keeps held (sponsor_and_distribute chain requirements envelope contract)
  unfolding sponsor_and_distribute
  Keeps-sponsor_and_distribute contract =
      Keeps-bind held
        (with_timeout chain (codes "soroban_sponsor_submit")
          (submit_fee_sponsor_unlocked chain envelope))
        _ (Keeps-with_timeout held chain _ _ (Keeps-submit_fee_sponsor_unlocked chain envelope))
        λ hash.
          Keeps-bind held (distribute_if_named chain requirements contract requirements.domain) _
            (Keeps-distribute_if_named chain requirements contract requirements.domain) λ _. refl

  Locks-settle_paywall : Locks (settle_paywall chain cfg requirements tx envelope)
  unfolding settle_paywall
  Locks-settle_paywall =
      Locks-after
        (assert_paywall_contract_allowed requirements.paywall_contract
          cfg.allowed_paywall_contracts)
        _
        λ contract.
          Locks-after (validate_soroban_transfer tx requirements.asset contract requirements.amount)
            _ λ _. Locks-facilitator_lock_run chain _ (Keeps-sponsor_and_distribute contract)

  Locks-route :
      (call : ContractCall) (path : SettlePath)
      → Locks (route chain cfg requirements tx envelope call path)
  Locks-route call adapter =
      Locks-before (settle_adapter chain cfg requirements tx envelope call) (λ hash. (hash, none))
        (Locks-settle_adapter call)
  Locks-route call legacy = Locks-settle_paywall

  Locks-settle_sponsored : Locks (settle_sponsored chain cfg requirements tx envelope)
  unfolding settle_sponsored
  Locks-settle_sponsored =
      Locks-after (invoked (extract_invoked_op tx.operations)) _
        λ call. Locks-route call (classify_settle_path call cfg.allowed_pay_adapters)

  Locks-settle_presigned : (soroban : Bool) → Locks (settle_presigned chain soroban envelope)
  unfolding settle_presigned submit_soroban submit_classic
  Locks-settle_presigned true = Locks-after (chain.simulate envelope) _ λ _. inl (
      Keeps-bind free (with_timeout chain (codes "soroban_submit") (submit_soroban chain envelope))
        _ (Keeps-with_timeout free chain _ _ refl) λ hash. refl)
  Locks-settle_presigned false = inl (
      Keeps-bind free (with_timeout chain (codes "horizon_submit") (submit_classic chain envelope))
        _ (Keeps-with_timeout free chain _ _ refl) λ hash. refl)

  branch-Locks :
      {A : Type 0} (test : Bool) (m n : Run A) → Locks m → Locks n → Locks (if test then m else n)
  branch-Locks true m n h k = h
  branch-Locks false m n h k = k

  -- The work of /settle sends all its transactions from the facilitator's account inside one hold of
  -- the lock: it takes the lock at most once, and has released it at the end if it took it, whatever
  -- checks fail and whatever errors are thrown on the way. The order is that of the work
  -- itself: what goes on after a timer has won its race stands at the place that it has without it.
  pub settle_work_locks :
      (declared : Option Text)
      → (after free (settle_work chain cfg requirements declared tx envelope).0 ≡ some free)
        ⊎ (after free (settle_work chain cfg requirements declared tx envelope).0 ≡ some released)
  unfolding settle_work
  settle_work_locks declared =
      Locks-before
        (if any is_soroban_op tx.operations && tx.signatures == 0 && chain.has_facilitator
          then settle_sponsored chain cfg requirements tx envelope
          else settle_presigned chain (any is_soroban_op tx.operations) envelope)
        (λ p. result_of requirements declared tx p.0 p.1)
        (branch-Locks {A = Text × Option Text}
          (any is_soroban_op tx.operations && tx.signatures == 0 && chain.has_facilitator)
          (settle_sponsored chain cfg requirements tx envelope)
          (settle_presigned chain (any is_soroban_op tx.operations) envelope) Locks-settle_sponsored
          (Locks-settle_presigned (any is_soroban_op tx.operations)))
