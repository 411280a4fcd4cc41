-- ===== src/Facilitator/Settlement.antt =====
-- What a settled payment is, how long it is polled for, and which signer is chosen.
use verivyx_monorepo.Prelude.{
  ℕ, zero, suc, ◌+◌, ◌≤◌, ◌<◌, ◌≡◌, refl, ◌≢◌, ◌⊎◌, ◌↔◌, Bool, true, Option, none, some, or_default,
  List, [], inl, inr, subst, ltb, ◌==◌, ==_iff, ltb→lt, Text, has_iff, Listed, arith, Bool-cases,
}
use verivyx_monorepo.Facilitator.Types.{
  Native, InvokeOp, Transaction, PaymentRequirements, PaymentPayload, VerifyResponse, valid,
  invalid,
}
use verivyx_monorepo.Facilitator.Verify.{
  Rpc, SchemeConfig, default_timeout_seconds, network_to_passphrase, verify,
}
use verivyx_monorepo.Facilitator.Settle.{
  PollAnswer, confirmed, rejected, poll_from, poll_for_transaction, RebuiltTx, FeeBump, Submission,
  Network, settled, Step, cont, read_envelope, rebuild, submit, settle_steps, settle,
  first_invocation, need, bind-cont, bump, confirm, SettleReason, transaction_signing_failed,
  fee_bump_signing_failed, unexpected_settle_error, transaction_submission_failed, after_signing,
  open_network, finish,
}

-- An attempt below the bound finds the transaction successful, and none before it finds it failed.
abbrev pub ConfirmedWithin : (ℕ → PollAnswer) → ℕ → ℕ → Type 0
ConfirmedWithin answer from bound =
    (i : ℕ) × (from ≤ i)
    × (i < bound)
    × (answer i ≡ confirmed)
    × ((j : ℕ) → from ≤ j → j < i → answer j ≢ rejected)

poll_next :
    (answer : ℕ → PollAnswer) (index left : ℕ)
    → answer index ≢ rejected
    → ConfirmedWithin answer (index + 1) (index + 1 + left)
    → ConfirmedWithin answer index (index + suc left)
poll_next answer index left h (i, from, below, found, before) = (
  i,
  omega arith,
  omega arith,
  found,
  λ j a b e. elim (Bool-cases (ltb index j)) [
    | inl later ↦ before j (omega (arith, ltb→lt index j later)) b e
    | inr same ↦ h (subst (λ k. answer k ≡ rejected) (ground arith) e)
  ],
)

poll_step :
    (answer : ℕ → PollAnswer) (index left : ℕ)
    → poll_from answer index (suc left) ≡ true
    → (answer index ≡ confirmed)
      ⊎ ((answer index ≢ rejected) × (poll_from answer (index + 1) left ≡ true))
unfolding poll_from
poll_step answer index left h = ground arith

poll_from_sound :
    (answer : ℕ → PollAnswer) (index left : ℕ)
    → poll_from answer index left ≡ true
    → ConfirmedWithin answer index (index + left)
unfolding poll_from
poll_from_sound answer index zero h = cc
poll_from_sound answer index (suc left) h = elim (poll_step answer index left h) [
  | inl e ↦ (index, omega arith, omega arith, e, λ j a b. absurd (omega arith))
  | inr (ne, rest) ↦ poll_next answer index left ne (poll_from_sound answer (index + 1) left rest)
]

-- The converse, for every attempt at which it is confirmed.
poll_from_complete :
    (answer : ℕ → PollAnswer) (index left : ℕ)
    → ConfirmedWithin answer index (index + left)
    → poll_from answer index left ≡ true
unfolding poll_from
poll_from_complete answer index zero (i, from, below, found, before) = absurd (omega arith)
poll_from_complete answer index (suc left) (i, from, below, found, before) =
    elim (Bool-cases (i == index)) [
      | inl here ↦
          let e : answer index ≡ confirmed =
            subst (λ k. answer k ≡ confirmed) ((==_iff i index).0 here) found in
          ground arith
      | inr more ↦ ground (
        arith,
        before index,
        poll_from_complete answer (index + 1) left
            (i, ground arith, omega arith, found, λ j a b. before j (omega arith) b),
      )
    ]

-- Polling reports success exactly when one of the first `max_poll_attempts` answers is a success
-- that no failure precedes.
pub poll_for_transaction_iff :
    (answer : ℕ → PollAnswer) (max_poll_attempts : ℕ)
    → (poll_for_transaction answer max_poll_attempts ≡ true)
      ↔ ConfirmedWithin answer 0 max_poll_attempts
unfolding poll_for_transaction
poll_for_transaction_iff answer n = (
  λ h. subst (λ k. ConfirmedWithin answer 0 k) (omega arith) (poll_from_sound answer 0 n h),
  λ c. poll_from_complete answer 0 n (subst (λ k. ConfirmedWithin answer 0 k) (omega arith) c),
)

module _ (rpc : Rpc) (net : Network) (cfg : SchemeConfig) (select : List Text → Text)
    (fee_bump_signer : Option Text) (requirements : PaymentRequirements) where
  read_checks :
      (passphrase envelope : Text) (transaction : Transaction) (soroban_data : Text) (op : InvokeOp)
      → read_envelope rpc net passphrase envelope ≡ cont (transaction, soroban_data, op)
      → (rpc.parse_transaction envelope passphrase ≡ some transaction)
        × (first_invocation transaction.operations ≡ some op)
        × (net.soroban_data envelope ≡ some (some soroban_data))
  unfolding read_envelope
  read_checks passphrase envelope transaction soroban_data op h = ground arith

  pub record RebuiltFrom (transaction : Transaction) (soroban_data : Text) (op : InvokeOp)
      (inner : RebuiltTx) : Type 0 where
    pub source : Listed inner.source cfg.signing_addresses
    pub fee_from_client : inner.fee ≤ transaction.fee
    pub fee_capped : inner.fee ≤ cfg.max_transaction_fee_stroops
    pub timeout :
        inner.timeout ≡ or_default requirements.max_timeout_seconds default_timeout_seconds
    pub same_op : inner.op ≡ op
    pub same_data : inner.soroban_data ≡ soroban_data
    pub same_preconditions : inner.preconditions ≡ transaction.preconditions

  rebuild-RebuiltFrom :
      (transaction : Transaction) (soroban_data : Text) (op : InvokeOp) (inner : RebuiltTx)
      → rebuild net cfg select requirements transaction soroban_data op ≡ cont inner
      → RebuiltFrom transaction soroban_data op inner
  unfolding rebuild
  rebuild-RebuiltFrom transaction soroban_data op inner h =
      ground (arith, has_iff cfg.signing_addresses (select cfg.signing_addresses))

  -- Without a fee-bump signer the transaction goes as it is; with one it is wrapped for that payer,
  -- at the fee of the inner transaction.
  abbrev pub IsWrapped : RebuiltTx → Submission → Option Text → Type 0
  IsWrapped inner submission none = (submission.inner ≡ inner) × (submission.fee_bump ≡ none)
  IsWrapped inner submission (some payer) =
      (submission.inner ≡ inner)
      × ((wrapped : FeeBump) × (submission.fee_bump ≡ some wrapped)
          × (wrapped.source ≡ payer)
          × (wrapped.base_fee ≡ inner.fee))

  bump-IsWrapped :
      (signer : Option Text) (inner : RebuiltTx) (submission : Submission)
      → bump net signer inner ≡ cont submission
      → IsWrapped inner submission signer
  unfolding bump
  bump-IsWrapped none inner submission h = ground arith
  bump-IsWrapped (some payer) inner submission h =
      let (_, signed, built) =
        bind-cont
          (after_signing
            (net.sign payer (record {
              inner = inner;
              fee_bump = some (record { source = payer; base_fee = inner.fee });
            }))
            fee_bump_signing_failed)
          _ h in
      subst (λ s. IsWrapped inner s (some payer)) (cc built)
        (refl, (record { source = payer; base_fee = inner.fee }, refl, refl, refl))

  confirm_lem :
      (done : Bool) (hash hash' : Text)
      → confirm done hash ≡ cont hash'
      → (done ≡ true) × (hash ≡ hash')
  confirm_lem done hash hash' h = ground arith

  need_lem :
      {A : Type 0} (o : Option A) (reason : SettleReason) (hash : Text) (a : A)
      → need o reason hash ≡ cont a
      → o ≡ some a
  need_lem none reason hash a h = cc
  need_lem (some b) reason hash a h = ground arith

  submit_checks :
      (inner : RebuiltTx) (hash : Text)
      → submit net fee_bump_signer requirements inner ≡ cont hash
      → ((submission : Submission) × IsWrapped inner submission fee_bump_signer
          × (net.send submission ≡ some (some hash)))
        × (poll_for_transaction
              (net.get_transaction hash)
              (or_default requirements.max_timeout_seconds default_timeout_seconds)
            ≡ true)
  unfolding submit
  submit_checks inner hash h =
      let (_, _, h1) =
        bind-cont
          (after_signing (net.sign inner.source (record { inner = inner; fee_bump = none }))
            transaction_signing_failed)
          _ h in
      let (submission, bumped, h2) = bind-cont (bump net fee_bump_signer inner) _ h1 in
      let (sent, answered, h3) =
        bind-cont (need (net.send submission) unexpected_settle_error []) _ h2 in
      let (hash', queued, h4) = bind-cont (need sent transaction_submission_failed []) _ h3 in
      let (done, same) = confirm_lem _ hash' hash h4 in
      let accepted = need_lem (net.send submission) unexpected_settle_error [] sent answered in
      let found = need_lem sent transaction_submission_failed [] hash' queued in
      (
        (
          submission,
          bump-IsWrapped fee_bump_signer inner submission bumped,
          cc (accepted, found, same),
        ),
        subst
            (λ x.
              poll_for_transaction (net.get_transaction x)
                (or_default requirements.max_timeout_seconds default_timeout_seconds)
              ≡ true)
            same done,
      )

  -- A settled payment: verified; its single call, its Soroban data and its preconditions rebuilt
  -- into a transaction of the facilitator within the fee cap, wrapped for the fee-bump signer, taken
  -- by the server, and confirmed in time.
  pub record Settlement (payload : PaymentPayload) (hash : Text) (payer : Native) : Type 0 where
    pub passed : verify rpc cfg payload requirements ≡ valid payer
    pub passphrase : Text
    pub known : network_to_passphrase requirements.network ≡ some passphrase
    pub envelope : Text
    pub presented : payload.transaction ≡ some envelope
    pub transaction : Transaction
    pub parsed : rpc.parse_transaction envelope passphrase ≡ some transaction
    pub op : InvokeOp
    pub first : first_invocation transaction.operations ≡ some op
    pub soroban_data : Text
    pub extension : net.soroban_data envelope ≡ some (some soroban_data)
    pub inner : RebuiltTx
    pub rebuilt : RebuiltFrom transaction soroban_data op inner
    pub submission : Submission
    pub wrapped : IsWrapped inner submission fee_bump_signer
    pub sent : net.send submission ≡ some (some hash)
    pub confirmed_in_time :
        ConfirmedWithin
          (net.get_transaction hash)
          0
          (or_default requirements.max_timeout_seconds default_timeout_seconds)

  steps-Settlement :
      (payload : PaymentPayload) (hash : Text) (payer : Native) (passphrase : Text)
      → network_to_passphrase requirements.network ≡ some passphrase
      → verify rpc cfg payload requirements ≡ valid payer
      → settle_steps rpc net cfg select fee_bump_signer payload requirements passphrase ≡ cont hash
      → Settlement payload hash payer
  unfolding settle_steps
  steps-Settlement payload hash payer passphrase known passed h =
      let (envelope, presented, h1) =
        bind-cont (need payload.transaction unexpected_settle_error []) _ h in
      let ((transaction, soroban_data, op), read, h2) =
        bind-cont (read_envelope rpc net passphrase envelope) _ h1 in
      let (inner, rebuilt, submitted) =
        bind-cont (rebuild net cfg select requirements transaction soroban_data op) _ h2 in
      let (parsed, first, extension) =
        read_checks passphrase envelope transaction soroban_data op read in
      let ((submission, wrapped, sent), done) = submit_checks inner hash submitted in
      record {
        passed = passed;
        passphrase = passphrase;
        known = known;
        envelope = envelope;
        presented = need_lem payload.transaction unexpected_settle_error [] envelope presented;
        transaction = transaction;
        parsed = parsed;
        op = op;
        first = first;
        soroban_data = soroban_data;
        extension = extension;
        inner = inner;
        rebuilt = rebuild-RebuiltFrom transaction soroban_data op inner rebuilt;
        submission = submission;
        wrapped = wrapped;
        sent = sent;
        confirmed_in_time = (poll_for_transaction_iff _ _).0 done;
      }

  known_network :
      (passphrase : Text)
      → open_network rpc cfg requirements ≡ some passphrase
      → network_to_passphrase requirements.network ≡ some passphrase
  unfolding open_network
  known_network passphrase h = ground arith

  finish_checks :
      (opened : Option Text) (steps : Text → Step Text) (response : VerifyResponse) (hash : Text)
      (payer : Native)
      → finish opened steps response ≡ settled hash payer
      → (passphrase : Text) × (opened ≡ some passphrase)
        × (response ≡ valid payer)
        × (steps passphrase ≡ cont hash)
  finish_checks none steps response hash payer h = cc
  finish_checks (some passphrase) steps (invalid reason p) hash payer h = cc
  finish_checks (some passphrase) steps (valid p) hash payer h =
      (passphrase, refl, ground arith, ground arith)

  -- A payment that `settle` reports as settled is a `Settlement`: `verify` called it valid for the
  -- reported payer; what was sent is a transaction from one of the facilitator's addresses around
  -- the first operation of the presented one, with its Soroban data and preconditions, at a fee
  -- that is at most the client's and at most the cap; with a fee-bump signer it is wrapped in a fee
  -- bump of that signer whose base fee is that fee; the server accepted it under the reported hash; and one of the polls, before any that saw
  -- it fail, saw that hash succeed.
  pub settle-Settlement :
      (payload : PaymentPayload) (hash : Text) (payer : Native)
      → settle rpc net cfg select fee_bump_signer payload requirements ≡ settled hash payer
      → Settlement payload hash payer
  unfolding settle
  settle-Settlement payload hash payer h =
      let (passphrase, opened, passed, steps) =
        finish_checks (open_network rpc cfg requirements)
          (settle_steps rpc net cfg select fee_bump_signer payload requirements)
          (verify rpc cfg payload requirements) hash payer h in
      steps-Settlement payload hash payer passphrase (known_network passphrase opened) passed steps
