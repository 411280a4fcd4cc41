-- ===== src/Facilitator/Auth.antt =====
-- validateAuthEntries, and gatherAuthEntrySignatureStatus of core/stellar/shared.ts.
use verivyx_monorepo.Prelude.{
  ℕ, ◌+◌, Bool, true, false, not, Option, none, some, List, [], ◌∷◌, Text, has, ltb, ◌==◌, length,
  if◌then◌else◌,
}
use verivyx_monorepo.Facilitator.Types.{
  Native, has_native, Credentials, source_account, address, AuthEntry, InvokeOp, Operation,
  invoke_host_function, Transaction, no_auth_entries, unsupported_credential_type,
  facilitator_in_auth, signature_expiration_too_far, has_subinvocations, missing_payer_signature,
  unexpected_pending_signatures, unexpected_verify_error, Checked, go, stop, ◌>>=◌, ◌>>◌, reject_if,
  expect,
}

abbrev pub signature_expiration_ledger_tolerance : ℕ
signature_expiration_ledger_tolerance = 2

-- `maxLedger`: a ledger, or no bound where the division by the estimate gives Infinity or NaN.
pub data Limit : Type 0 where
  at : ℕ → Limit
  unbounded : Limit

-- `expirationLedger > maxLedger + tolerance`.
unfoldable pub exceeds : ℕ → Limit → Bool
exceeds ledger (at most) = ltb (most + signature_expiration_ledger_tolerance) ledger
exceeds ledger unbounded = false

unfoldable pub check_credentials : List Text → Native → Limit → Credentials → ℕ → Checked (Unit {0})
unfolding exceeds
check_credentials facilitators payer limit source_account sub_invocations =
    stop unsupported_credential_type (some payer)
check_credentials facilitators payer limit (address who expiration signed) sub_invocations = do
  reject_if (has facilitators who) facilitator_in_auth (some payer)
  reject_if (exceeds expiration limit) signature_expiration_too_far (some payer)
  reject_if (ltb 0 sub_invocations) has_subinvocations (some payer)

unfoldable pub check_auth_entries : List Text → Native → Limit → List AuthEntry → Checked (Unit {0})
unfolding check_credentials
check_auth_entries facilitators payer limit [] = go tt
check_auth_entries facilitators payer limit (entry ∷ entries) =
    check_credentials facilitators payer limit entry.credentials entry.sub_invocations
    >> check_auth_entries facilitators payer limit entries

-- The two lists of the result; the removal of duplicates changes no membership and no emptiness.
pub record ContractSigners : Type 0 where
  pub already_signed : List Text
  pub pending_signature : List Text

unfoldable pub dedupe : List Text → List Text → List Text
dedupe seen [] = []
dedupe seen (t ∷ ts) =
    let later = dedupe seen ts in
    let first = dedupe (t ∷ seen) ts in if has seen t then later else t ∷ first

abbrev push_signer : Credentials → List Text × List Text → List Text × List Text
push_signer source_account (signed, pending) = (signed, pending)
push_signer (address who expiration true) (signed, pending) = (who ∷ signed, pending)
push_signer (address who expiration false) (signed, pending) = (signed, who ∷ pending)

unfoldable pub gather_entries : List AuthEntry → List Text × List Text
gather_entries [] = ([], [])
gather_entries (entry ∷ entries) = push_signer entry.credentials (gather_entries entries)

unfoldable pub gather_operations : List Operation → Option ContractSigners
unfolding gather_entries dedupe
gather_operations (invoke_host_function op ∷ []) =
    let (signed, pending) = gather_entries op.auth in
    some (record { already_signed = dedupe [] signed; pending_signature = dedupe [] pending })
gather_operations _ = none

-- On the transaction assembled with the simulation; `none` is a thrown error.
unfoldable pub gather_auth_entry_signature_status : Option Transaction → Option ContractSigners
unfolding gather_operations
gather_auth_entry_signature_status none = none
gather_auth_entry_signature_status (some assembled) = gather_operations assembled.operations

-- Thrown errors inside reach the handler of `verify`.
unfoldable pub validate_auth_entries :
    InvokeOp → List Text → Native → Limit → Option Transaction → Checked (Unit {0})
unfolding check_auth_entries gather_auth_entry_signature_status
validate_auth_entries op facilitators payer limit assembled = do
  reject_if (length op.auth == 0) no_auth_entries (some payer)
  check_auth_entries facilitators payer limit op.auth
  status ←
      expect (gather_auth_entry_signature_status assembled) unexpected_verify_error (some payer)
  reject_if (not (has_native status.already_signed payer)) missing_payer_signature (some payer)
  reject_if (ltb 0 (length status.pending_signature)) unexpected_pending_signatures (some payer)
