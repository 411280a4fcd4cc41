-- ===== src/Relayer/Operations.antt =====
-- The checks of a transaction's operations: payer.ts, and validateSorobanTransfer,
-- validateAdapterPayOp, validateAsset and the revenue split of index.ts.
pub mod Laws
use verivyx_monorepo.Prelude.{
  ℕ, Bool, true, false, not, ◌&&◌, ◌||◌, Option, none, some, or_default, List, [], ◌∷◌, Text, codes,
  text_eq, ltb, ◌==◌, length, filter, any, if◌then◌else◌,
}
use verivyx_monorepo.Prelude.Parse.{split}
use verivyx_monorepo.Relayer.Types.{
  ContractCall, HostFunction, invoke_contract, other_function, PaymentOp, Operation, payment,
  invoke_host_function, other_operation, Transaction, Split, Requirements, Rejection,
  missing_transaction, invalid_xdr, missing_signatures, wrong_payment_count, missing_split,
  wrong_asset, wrong_operation_count, not_invoke_host_function, not_invoke_contract, wrong_contract,
  wrong_function, wrong_arg_count, wrong_recipient, wrong_amount, Outcome, ok, rejected, thrown,
  ◌>>=◌, ◌>>◌,
}
use verivyx_monorepo.Relayer.Amount.{atomic_to_stellar}

-- `declared || sorobanFrom || txSource`.
unfoldable pub resolve_payer : Option Text → Text → Text → Text
resolve_payer (some (c ∷ t)) soroban_from tx_source = c ∷ t
resolve_payer declared (c ∷ t) tx_source = c ∷ t
resolve_payer declared [] tx_source = tx_source

unfoldable pub extract_invoked_op : List Operation → Option ContractCall
extract_invoked_op (invoke_host_function (invoke_contract call) ∷ []) = some call
extract_invoked_op _ = none

abbrev first_arg : List (Option Text) → Text
first_arg (some sender ∷ _ ∷ _ ∷ []) = sender
first_arg _ = []

unfoldable pub extract_soroban_from : List Operation → Text
extract_soroban_from (invoke_host_function (invoke_contract call) ∷ _) =
    if text_eq call.function_name (codes "transfer") then first_arg call.args else []
extract_soroban_from _ = []

abbrev pub reject_unless : Bool → Rejection → Outcome (Unit {0})
reject_unless true reason = ok tt
reject_unless false reason = rejected reason

-- The single invokeContract of a transaction; shared by the two validators.
unfoldable pub single_call : List Operation → Outcome ContractCall
single_call (invoke_host_function (invoke_contract call) ∷ []) = ok call
single_call (invoke_host_function other_function ∷ []) = rejected not_invoke_contract
single_call (payment op ∷ []) = rejected not_invoke_host_function
single_call (other_operation ∷ []) = rejected not_invoke_host_function
single_call [] = rejected wrong_operation_count
single_call (_ ∷ _ ∷ _) = rejected wrong_operation_count

abbrev pub decoded : Option Text → Outcome Text
decoded none = thrown []
decoded (some t) = ok t

-- `args[1]` and `args[2]` of three arguments.
abbrev pub recipient_and_amount : List (Option Text) → Outcome (Text × Text)
recipient_and_amount (_ ∷ second ∷ third ∷ []) = do
  to ← decoded second
  amount ← decoded third
  ok (to, amount)
recipient_and_amount _ = rejected wrong_arg_count

abbrev pub check_paid : Text → Text → Text → Text → Outcome (Unit {0})
check_paid to amount expected_to expected_amount = do
  reject_unless (text_eq to expected_to) wrong_recipient
  reject_unless (text_eq amount expected_amount) wrong_amount

unfoldable pub check_transfer_call : ContractCall → Text → Text → Text → Outcome (Unit {0})
check_transfer_call call usdc_contract expected_to expected_amount = do
  reject_unless (text_eq call.contract_id usdc_contract) wrong_contract
  reject_unless (text_eq call.function_name (codes "transfer")) wrong_function
  (to, amount) ← recipient_and_amount call.args
  check_paid to amount expected_to expected_amount

unfoldable pub validate_soroban_transfer : Transaction → Text → Text → Text → Outcome (Unit {0})
validate_soroban_transfer tx usdc_contract expected_to expected_amount = do
  call ← single_call tx.operations
  check_transfer_call call usdc_contract expected_to expected_amount

unfoldable pub validate_pay_call : ContractCall → Text → Outcome (Unit {0})
validate_pay_call call expected_adapter_id = do
  reject_unless (text_eq call.contract_id expected_adapter_id) wrong_contract
  reject_unless (text_eq call.function_name (codes "pay")) wrong_function
  reject_unless (length call.args == 3) wrong_arg_count

unfoldable pub validate_adapter_pay_op : Transaction → Text → Outcome (Unit {0})
validate_adapter_pay_op tx expected_adapter_id = do
  call ← single_call tx.operations
  validate_pay_call call expected_adapter_id

abbrev pub pays_asset : Text → Text → Operation → Bool
pays_asset code issuer (payment op) =
    text_eq op.code code && text_eq (or_default op.issuer []) issuer
pays_asset code issuer _ = true

abbrev pub first_two : List Text → Text × Text
first_two (code ∷ issuer ∷ _) = (code, issuer)
first_two (code ∷ []) = (code, [])
first_two [] = ([], [])

unfoldable pub all_pay : Text → Text → List Operation → Bool
all_pay code issuer [] = true
all_pay code issuer (op ∷ ops) = pays_asset code issuer op && all_pay code issuer ops

-- An asset without a colon is no requirement; more than one colon leaves the rest unread.
unfoldable pub validate_asset : Transaction → Text → Outcome (Unit {0})
unfolding all_pay
validate_asset tx asset =
    if any (λ c. c == b':') asset
    then (let (code, issuer) = first_two (split b':' asset) in
        reject_unless (all_pay code issuer tx.operations) wrong_asset)
    else ok tt

abbrev pub is_payment : Operation → Bool
is_payment (payment op) = true
is_payment _ = false

abbrev pub is_soroban_op : Operation → Bool
is_soroban_op (invoke_host_function f) = true
is_soroban_op _ = false

-- The amount is converted only for a payment to the split's recipient, and may throw there.
abbrev pub matches_amount : PaymentOp → Option Text → Outcome Bool
matches_amount op none = thrown []
matches_amount op (some amount) = ok (text_eq op.amount amount)

abbrev pub matches_split : Split → Operation → Outcome Bool
matches_split split (payment op) =
    if text_eq op.destination split.pay_to
    then matches_amount op (atomic_to_stellar split.amount)
    else ok false
matches_split split _ = ok false

-- `tx.operations.find`.
unfoldable pub find_split : Split → List Operation → Outcome Bool
find_split split [] = ok false
find_split split (op ∷ ops) =
    let rest = find_split split ops in
    matches_split split op >>= λ found. if found then ok true else rest

unfoldable pub all_splits : List Split → List Operation → Outcome (Unit {0})
unfolding find_split
all_splits [] ops = ok tt
all_splits (split ∷ splits) ops = do
  found ← find_split split ops
  reject_unless found (missing_split split)
  all_splits splits ops

unfoldable pub verify_split : Option (List Split) → List Operation → Outcome (Unit {0})
unfolding all_splits
verify_split none ops = ok tt
verify_split (some splits) ops = do
  let count = length (filter is_payment ops)
  reject_unless (count == 2) (wrong_payment_count count)
  all_splits splits ops

-- POST /verify for a decoded body: the transaction text, if there is one, and the requirements.
-- The payer is the source of the transaction.
unfoldable pub verify_transaction : Transaction → Requirements → Outcome Text
unfolding verify_split validate_asset
verify_transaction tx requirements = do
  reject_unless (any is_soroban_op tx.operations || ltb 0 tx.signatures) missing_signatures
  verify_split requirements.split_payments tx.operations
  validate_asset tx requirements.asset
  ok tx.source

pub data VerifyReply : Type 0 where
  valid : (payer : Text) → VerifyReply
  invalid : Rejection → VerifyReply

-- The `catch` of the handler.
abbrev pub verify_reply : Outcome Text → VerifyReply
verify_reply (ok payer) = valid payer
verify_reply (rejected reason) = invalid reason
verify_reply (thrown message) = invalid invalid_xdr

abbrev parsed : Option Transaction → Outcome Transaction
parsed none = thrown []
parsed (some tx) = ok tx

-- `parse` is TransactionBuilder.fromXDR.
unfoldable pub handle_verify :
    (parse : Text → Option Transaction) → Option Text → Requirements → VerifyReply
unfolding verify_transaction
handle_verify parse none requirements = invalid missing_transaction
handle_verify parse (some []) requirements = invalid missing_transaction
handle_verify parse (some (c ∷ t)) requirements =
    verify_reply (parsed (parse (c ∷ t)) >>= λ tx. verify_transaction tx requirements)
