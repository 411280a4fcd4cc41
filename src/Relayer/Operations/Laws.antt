-- ===== src/Relayer/Operations/Laws.antt =====
-- Proofs about the validators of the relayer.
use verivyx_monorepo.Prelude.{
  ◌<◌, ◌==◌, ◌≡◌, ◌⊎◌, ◌↔◌, refl, inl, inr, subst, sym, ap, ◌∙◌, Bool, true, false, Option, none,
  some, or_default, List, [], ◌∷◌, Text, codes, text_eq_iff, text_eq_refl, length, filter, any, All,
  Any, arith, if◌then◌else◌, Option-cases,
}
use verivyx_monorepo.Prelude.Parse.{split as split_at}
use verivyx_monorepo.Relayer.Types.{
  ContractCall, invoke_contract, other_function, Operation, payment, invoke_host_function,
  other_operation, Transaction, Split, Requirements, Rejection, Outcome, ok, rejected, thrown,
  ◌>>=◌,
}
use verivyx_monorepo.Relayer.Amount.{atomic_to_stellar}
use verivyx_monorepo.Relayer.Operations.{
  reject_unless, single_call, recipient_and_amount, check_paid, check_transfer_call,
  validate_soroban_transfer, find_split, all_splits, verify_split, validate_asset, all_pay,
  first_two, is_payment, is_soroban_op, matches_split, verify_transaction,
}

-- A transaction of one call: `transfer` on the contract, to the recipient, of the amount.
pub record IsTransferTo (tx : Transaction) (contract to amount : Text) : Type 0 where
  pub call : ContractCall
  pub single : tx.operations ≡ invoke_host_function (invoke_contract call) ∷ []
  pub target : call.contract_id ≡ contract
  pub function : call.function_name ≡ codes "transfer"
  pub sender : Option Text
  pub args : call.args ≡ sender ∷ some to ∷ some amount ∷ []

pub single_call-ok :
    (ops : List Operation) (call : ContractCall)
    → single_call ops ≡ ok call
    → ops ≡ invoke_host_function (invoke_contract call) ∷ []
unfolding single_call
single_call-ok (invoke_host_function (invoke_contract c) ∷ []) call h = cc
single_call-ok (invoke_host_function other_function ∷ []) call h = cc
single_call-ok (payment op ∷ []) call h = cc
single_call-ok (other_operation ∷ []) call h = cc
single_call-ok [] call h = cc
single_call-ok (invoke_host_function _ ∷ _ ∷ _) call h = cc
single_call-ok (payment _ ∷ _ ∷ _) call h = cc
single_call-ok (other_operation ∷ _ ∷ _) call h = cc

recipient_and_amount-ok :
    (args : List (Option Text)) (to amount : Text)
    → recipient_and_amount args ≡ ok (to, amount)
    → (sender : Option Text) × (args ≡ sender ∷ some to ∷ some amount ∷ [])
recipient_and_amount-ok (a ∷ some b ∷ some c ∷ []) to amount h = (a, ground arith)
recipient_and_amount-ok (a ∷ none ∷ c ∷ []) to amount h = cc
recipient_and_amount-ok (a ∷ some b ∷ none ∷ []) to amount h = cc
recipient_and_amount-ok [] to amount h = cc
recipient_and_amount-ok (a ∷ []) to amount h = cc
recipient_and_amount-ok (a ∷ b ∷ []) to amount h = cc
recipient_and_amount-ok (a ∷ b ∷ c ∷ _ ∷ _) to amount h = cc

check_paid-ok :
    (to amount expected_to expected_amount : Text)
    → check_paid to amount expected_to expected_amount ≡ ok tt
    → (to ≡ expected_to) × (amount ≡ expected_amount)
check_paid-ok to amount expected_to expected_amount h =
    ground (arith, text_eq_iff to expected_to, text_eq_iff amount expected_amount)

call_checks :
    (call : ContractCall) (contract to amount : Text)
    → check_transfer_call call contract to amount ≡ ok tt
    → (call.contract_id ≡ contract)
      × (call.function_name ≡ codes "transfer")
      × (to' : Text) × (amount' : Text) × (recipient_and_amount call.args ≡ ok (to', amount'))
      × (check_paid to' amount' to amount ≡ ok tt)
unfolding check_transfer_call
call_checks call contract to amount h = ground (
  arith,
  text_eq_iff call.contract_id contract,
  text_eq_iff call.function_name (codes "transfer"),
)

transfer_checks :
    (tx : Transaction) (contract to amount : Text)
    → validate_soroban_transfer tx contract to amount ≡ ok tt
    → (call : ContractCall) × (single_call tx.operations ≡ ok call)
      × (check_transfer_call call contract to amount ≡ ok tt)
unfolding validate_soroban_transfer
transfer_checks tx contract to amount h = ground arith

transfer-IsTransferTo :
    (tx : Transaction) (contract to amount : Text)
    → validate_soroban_transfer tx contract to amount ≡ ok tt
    → IsTransferTo tx contract to amount
transfer-IsTransferTo tx contract to amount h =
    let (call, single, checked) = transfer_checks tx contract to amount h in
    let (target, function, to', amount', read, paid) =
      call_checks call contract to amount checked in
    let (sender, args) = recipient_and_amount-ok call.args to' amount' read in
    let (same_to, same_amount) = check_paid-ok to' amount' to amount paid in
    record {
      call = call;
      single = single_call-ok tx.operations call single;
      target = target;
      function = function;
      sender = sender;
      args = cc (args, same_to, same_amount);
    }

transfer_accepted :
    (tx : Transaction) (contract to amount : Text)
    → IsTransferTo tx contract to amount
    → validate_soroban_transfer tx contract to amount ≡ ok tt
unfolding validate_soroban_transfer check_transfer_call single_call
transfer_accepted tx contract to amount t =
    rw (t.single, t.target, t.function, t.args)
      (rw (
        text_eq_refl contract,
        text_eq_refl to,
        text_eq_refl amount,
        text_eq_refl (codes "transfer"),
      ))

-- A transfer passes exactly when the transaction is one call of `transfer` on the contract, with
-- three arguments, the second the recipient and the third the full amount.
pub validate_soroban_transfer_iff :
    (tx : Transaction) (contract to amount : Text)
    → (validate_soroban_transfer tx contract to amount ≡ ok tt) ↔ IsTransferTo tx contract to amount
validate_soroban_transfer_iff tx contract to amount =
    (transfer-IsTransferTo tx contract to amount, transfer_accepted tx contract to amount)

-- A payment of the amount to the address.
abbrev pub Pays : Text → Text → Operation → Type 0
Pays to amount (payment op) = (op.destination ≡ to) × (op.amount ≡ amount)
Pays to amount _ = ⊥

-- Some operation pays the split's amount, as Stellar writes it, to its recipient.
abbrev pub IsPaid : List Operation → Split → Type 0
IsPaid ops split =
    (amount : Text) × (atomic_to_stellar split.amount ≡ some amount)
    × Any (Pays split.pay_to amount) ops

match_one :
    (split : Split) (op : Operation)
    → matches_split split op ≡ ok true
    → (amount : Text) × (atomic_to_stellar split.amount ≡ some amount) × Pays split.pay_to amount op
match_one split (payment op) h = elim (Option-cases (atomic_to_stellar split.amount)) [
  | inl refused ↦ absurd (ground arith)
  | inr (amount, converted) ↦ (
    amount,
    converted,
    ground (arith, text_eq_iff op.destination split.pay_to, text_eq_iff op.amount amount),
  )
]
match_one split (invoke_host_function f) h = cc
match_one split other_operation h = cc

found_first_or_later :
    (m : Outcome Bool) (rest : Outcome Bool)
    → (m >>= λ found. if found then ok true else rest) ≡ ok true
    → (m ≡ ok true) ⊎ (rest ≡ ok true)
found_first_or_later (ok true) rest h = inl refl
found_first_or_later (ok false) rest h = inr h
found_first_or_later (rejected reason) rest h = cc
found_first_or_later (thrown message) rest h = cc

find_split_step :
    (split : Split) (op : Operation) (ops : List Operation)
    → find_split split (op ∷ ops) ≡ ok true
    → (matches_split split op ≡ ok true) ⊎ (find_split split ops ≡ ok true)
unfolding find_split
find_split_step split op ops h =
    found_first_or_later (matches_split split op) (find_split split ops) h

find_split-IsPaid :
    (split : Split) (ops : List Operation) → find_split split ops ≡ ok true → IsPaid ops split
unfolding find_split
find_split-IsPaid split [] h = cc
find_split-IsPaid split (op ∷ ops) h = elim (find_split_step split op ops h) [
  | inl first ↦
      (let (amount, converted, pays) = match_one split op first in (amount, converted, inl pays))
  | inr later ↦
      (let (amount, converted, pays) = find_split-IsPaid split ops later in
        (amount, converted, inr pays))
]

all_splits-IsPaid :
    (splits : List Split) (ops : List Operation)
    → all_splits splits ops ≡ ok tt
    → All (IsPaid ops) splits
unfolding all_splits
all_splits-IsPaid [] ops h = tt
all_splits-IsPaid (split ∷ splits) ops h =
    (find_split-IsPaid split ops (ground arith), all_splits-IsPaid splits ops (ground arith))

-- Every payment is in the asset; other operations are not looked at.
abbrev pub InAsset : Text → Text → Operation → Type 0
InAsset code issuer (payment op) = (op.code ≡ code) × (or_default op.issuer [] ≡ issuer)
InAsset code issuer _ = Unit

all_pay-InAsset :
    (code issuer : Text) (ops : List Operation)
    → all_pay code issuer ops ≡ true
    → All (InAsset code issuer) ops
unfolding all_pay
all_pay-InAsset code issuer [] h = tt
all_pay-InAsset code issuer (payment op ∷ ops) h = ground (
  arith,
  text_eq_iff op.code code,
  text_eq_iff (or_default op.issuer []) issuer,
  all_pay-InAsset code issuer ops,
)
all_pay-InAsset code issuer (invoke_host_function f ∷ ops) h =
    (tt, all_pay-InAsset code issuer ops h)
all_pay-InAsset code issuer (other_operation ∷ ops) h = (tt, all_pay-InAsset code issuer ops h)

pub record Verifies (tx : Transaction) (requirements : Requirements) (payer : Text) : Type 0 where
  pub source : payer ≡ tx.source
  pub signed : (any is_soroban_op tx.operations ≡ true) ⊎ (0 < tx.signatures)
  pub two :
      (splits : List Split)
      → requirements.split_payments ≡ some splits
      → length (filter is_payment tx.operations) ≡ 2
  pub paid :
      (splits : List Split)
      → requirements.split_payments ≡ some splits
      → All (IsPaid tx.operations) splits
  pub asset :
      (code issuer : Text)
      → any (λ c. c == b':') requirements.asset ≡ true
      → first_two (split_at b':' requirements.asset) ≡ (code, issuer)
      → All (InAsset code issuer) tx.operations

verify_checks :
    (tx : Transaction) (requirements : Requirements) (payer : Text)
    → verify_transaction tx requirements ≡ ok payer
    → (payer ≡ tx.source)
      × ((any is_soroban_op tx.operations ≡ true) ⊎ (0 < tx.signatures))
      × (verify_split requirements.split_payments tx.operations ≡ ok tt)
      × (validate_asset tx requirements.asset ≡ ok tt)
unfolding verify_transaction
verify_checks tx requirements payer h = ground arith

split_checks :
    (splits : List Split) (ops : List Operation)
    → verify_split (some splits) ops ≡ ok tt
    → (length (filter is_payment ops) ≡ 2) × (all_splits splits ops ≡ ok tt)
unfolding verify_split
split_checks splits ops h = ground arith

reject_unless-ok : (b : Bool) (reason : Rejection) → reject_unless b reason ≡ ok tt → b ≡ true
reject_unless-ok true reason h = refl
reject_unless-ok false reason h = cc

asset_checks :
    (tx : Transaction) (asset code issuer : Text)
    → any (λ c. c == b':') asset ≡ true
    → first_two (split_at b':' asset) ≡ (code, issuer)
    → validate_asset tx asset ≡ ok tt
    → all_pay code issuer tx.operations ≡ true
unfolding validate_asset
asset_checks tx asset code issuer colon parts h =
    let seen : (let p = first_two (split_at b':' asset) in all_pay p.0 p.1 tx.operations) ≡ true =
      reject_unless-ok _ _ (rw (colon, validate_asset) at h) in
    sym (ap (λ (p : Text × Text). all_pay p.0 p.1 tx.operations) parts) ∙ seen

-- A transaction that /verify accepts is signed or has a Soroban operation; under a revenue split it has
-- exactly two payments, and for each entry of the split a payment of exactly the entry's amount to
-- its recipient; where the asset of the requirements is `code:issuer`, each payment is in it; and the
-- payer reported is the transaction's source.
pub verify_transaction-Verifies :
    (tx : Transaction) (requirements : Requirements) (payer : Text)
    → verify_transaction tx requirements ≡ ok payer
    → Verifies tx requirements payer
verify_transaction-Verifies tx requirements payer h =
    let (source, signed, split, asset) = verify_checks tx requirements payer h in
    let checks : (splits : List Split)
        → requirements.split_payments ≡ some splits
        → (length (filter is_payment tx.operations) ≡ 2)
          × (all_splits splits tx.operations ≡ ok tt) =
      λ splits e.
        split_checks splits tx.operations
          (subst (λ s. verify_split s tx.operations ≡ ok tt) e split) in
    record {
      source = source;
      signed = signed;
      two = λ splits e. (checks splits e).0;
      paid = λ splits e. all_splits-IsPaid splits tx.operations (checks splits e).1;
      asset = λ code issuer colon parts.
          all_pay-InAsset code issuer tx.operations
            (asset_checks tx requirements.asset code issuer colon parts asset);
    }
