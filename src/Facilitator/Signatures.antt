-- ===== src/Facilitator/Signatures.antt =====
-- What the authorization entries are when `validateAuthEntries` lets them pass.
use verivyx_monorepo.Prelude.{
  ℕ, ◌+◌, ◌≤◌, ◌≡◌, refl, sym, ap, subst, ◌≢◌, ◌⊎◌, inl, inr, Bool, true, false, Option, none, some,
  List, [], ◌∷◌, Text, has, has_iff, Listed, All, Any, length, arith, Bool-cases,
}
use verivyx_monorepo.Facilitator.Types.{
  Native, str, has_native, Credentials, source_account, address, AuthEntry, InvokeOp, Operation,
  invoke_host_function, other_operation, Transaction, go,
}
use verivyx_monorepo.Facilitator.Auth.{
  Limit, at, unbounded, exceeds, check_credentials, check_auth_entries, ContractSigners, dedupe,
  gather_entries, gather_operations, gather_auth_entry_signature_status, validate_auth_entries,
  signature_expiration_ledger_tolerance,
}

-- A signature that expires by the limit, with the tolerance.
abbrev pub Within : ℕ → Limit → Type 0
Within expiration (at most) = expiration ≤ most + signature_expiration_ledger_tolerance
Within expiration unbounded = Unit

-- An entry that the facilitator may sponsor: signed for by a foreign address, for a limited time,
-- and with no sub-invocations.
pub record EntryFits (facilitators : List Text) (limit : Limit) (entry : AuthEntry) : Type 0 where
  pub who : Text
  pub expiration : ℕ
  pub signed : Bool
  pub by_address : entry.credentials ≡ address who expiration signed
  pub foreign : ¬ Listed who facilitators
  pub in_time : Within expiration limit
  pub alone : entry.sub_invocations ≡ 0

exceeds-Within :
    (expiration : ℕ) (limit : Limit) → exceeds expiration limit ≡ false → Within expiration limit
unfolding exceeds
exceeds-Within expiration (at most) h = ground arith
exceeds-Within expiration unbounded h = tt

module _ (facilitators : List Text) (payer : Native) (limit : Limit) where
  credentials_fit :
      (entry : AuthEntry) (credentials : Credentials)
      → entry.credentials ≡ credentials
      → check_credentials facilitators payer limit credentials entry.sub_invocations ≡ go tt
      → EntryFits facilitators limit entry
  unfolding check_credentials
  credentials_fit entry source_account e h = cc
  credentials_fit entry (address who expiration signed) e h = record {
    who = who;
    expiration = expiration;
    signed = signed;
    by_address = e;
    foreign = λ m. absurd (ground (arith, (has_iff facilitators who).1 m));
    in_time = exceeds-Within expiration limit (ground arith);
    alone = ground arith;
  }

  pub check_auth_entries-All :
      (entries : List AuthEntry)
      → check_auth_entries facilitators payer limit entries ≡ go tt
      → All (EntryFits facilitators limit) entries
  unfolding check_auth_entries
  check_auth_entries-All [] h = tt
  check_auth_entries-All (entry ∷ entries) h = (
    credentials_fit entry entry.credentials refl (ground arith),
    check_auth_entries-All entries (ground arith),
  )

-- The address has an entry among these that it has signed.
abbrev pub SignedBy : Text → List AuthEntry → Type 0
SignedBy who entries =
    Any (λ e. (expiration : ℕ) × (e.credentials ≡ address who expiration true)) entries

dedupe_old :
    (seen : List Text) (s : Text) (ts : List Text)
    → has seen s ≡ true
    → dedupe seen (s ∷ ts) ≡ dedupe seen ts
unfolding dedupe
dedupe_old seen s ts h = rw h

dedupe_new :
    (seen : List Text) (s : Text) (ts : List Text)
    → has seen s ≡ false
    → dedupe seen (s ∷ ts) ≡ s ∷ dedupe (s ∷ seen) ts
unfolding dedupe
dedupe_new seen s ts h = rw h

dedupe-Listed : (seen ts : List Text) (t : Text) → Listed t (dedupe seen ts) → Listed t ts
unfolding dedupe
dedupe-Listed seen [] t m = m
dedupe-Listed seen (s ∷ ts) t m = elim (Bool-cases (has seen s)) [
  | inl old ↦ inr (dedupe-Listed seen ts t (subst (λ l. Listed t l) (dedupe_old seen s ts old) m))
  | inr new ↦ elim (later (subst (λ l. Listed t l) (dedupe_new seen s ts new) m)) [
    | inl same ↦ inl same
    | inr rest ↦ inr (dedupe-Listed (s ∷ seen) ts t rest)
  ]
]
  where
    later : (s ≡ t) ⊎ Listed t (dedupe (s ∷ seen) ts) → (s ≡ t) ⊎ Listed t (dedupe (s ∷ seen) ts)
    later h = h

dedupe_empty : (ts : List Text) → length (dedupe [] ts) ≡ 0 → ts ≡ []
unfolding dedupe has
dedupe_empty [] h = refl
dedupe_empty (t ∷ ts) h = absurd (omega arith)

gather_signed :
    (entries : List AuthEntry) (who : Text)
    → Listed who (gather_entries entries).0
    → SignedBy who entries
unfolding gather_entries
gather_signed [] who m = m
gather_signed (entry ∷ entries) who m = ground (arith, gather_signed entries who)

-- No entry waits for a signature.
abbrev pub NonePending : List AuthEntry → Type 0
NonePending entries =
    All (λ e. (who : Text) (expiration : ℕ) → e.credentials ≢ address who expiration false) entries

gather_pending : (entries : List AuthEntry) → (gather_entries entries).1 ≡ [] → NonePending entries
unfolding gather_entries
gather_pending [] h = tt
gather_pending (entry ∷ entries) h =
    (λ who expiration e. ground arith, gather_pending entries (ground arith))

-- The payer has signed, and nobody else has still to sign, in the assembled transaction.
pub record PayerSigned (assembled : Option Transaction) (payer : Native) : Type 0 where
  pub who : Text
  pub payer_text : payer ≡ str who
  pub transaction : Transaction
  pub present : assembled ≡ some transaction
  pub op : InvokeOp
  pub single : transaction.operations ≡ invoke_host_function op ∷ []
  pub signed : SignedBy who op.auth
  pub settled : NonePending op.auth

validated :
    (op : InvokeOp) (facilitators : List Text) (payer : Native) (limit : Limit)
    (assembled : Option Transaction)
    → validate_auth_entries op facilitators payer limit assembled ≡ go tt
    → (status : ContractSigners) × (gather_auth_entry_signature_status assembled ≡ some status)
      × (check_auth_entries facilitators payer limit op.auth ≡ go tt)
      × (0 ≢ length op.auth)
      × (has_native status.already_signed payer ≡ true)
      × (length status.pending_signature ≡ 0)
unfolding validate_auth_entries
validated op facilitators payer limit assembled h = ground arith

gathered :
    (operations : List Operation) (status : ContractSigners)
    → gather_operations operations ≡ some status
    → (op : InvokeOp) × (operations ≡ invoke_host_function op ∷ [])
      × (status.already_signed ≡ dedupe [] (gather_entries op.auth).0)
      × (status.pending_signature ≡ dedupe [] (gather_entries op.auth).1)
unfolding gather_operations
gathered (invoke_host_function op ∷ []) status h = (op, refl, ground arith, ground arith)
gathered (invoke_host_function op ∷ _ ∷ _) status h = cc
gathered (other_operation ∷ _) status h = cc
gathered [] status h = cc

in_assembled :
    (assembled : Option Transaction) (status : ContractSigners)
    → gather_auth_entry_signature_status assembled ≡ some status
    → (transaction : Transaction) × (assembled ≡ some transaction)
      × (gather_operations transaction.operations ≡ some status)
unfolding gather_auth_entry_signature_status
in_assembled (some transaction) status h = (transaction, refl, h)
in_assembled none status h = cc

native-Listed :
    (ss : List Text) (v : Native)
    → has_native ss v ≡ true
    → (who : Text) × (v ≡ str who) × Listed who ss
unfolding has_native
native-Listed ss (str who) h = (who, refl, (has_iff ss who).0 h)
native-Listed ss v h = cc

PayerSigned-of_status :
    (assembled : Option Transaction) (status : ContractSigners) (payer : Native)
    → gather_auth_entry_signature_status assembled ≡ some status
    → has_native status.already_signed payer ≡ true
    → length status.pending_signature ≡ 0
    → PayerSigned assembled payer
PayerSigned-of_status assembled status payer found signed settled =
    let (transaction, present, operations) = in_assembled assembled status found in
    let (op, single, already, pending) = gathered transaction.operations status operations in
    let (who, payer_text, listed) = native-Listed status.already_signed payer signed in
    let listed' =
      dedupe-Listed [] (gather_entries op.auth).0 who (subst (λ l. Listed who l) already listed) in
    record {
      who = who;
      payer_text = payer_text;
      transaction = transaction;
      present = present;
      op = op;
      single = single;
      signed = gather_signed op.auth who listed';
      settled =
          gather_pending op.auth
            (dedupe_empty (gather_entries op.auth).1 (subst (λ l. length l ≡ 0) pending settled));
    }

pub validate_auth_entries-PayerSigned :
    (op : InvokeOp) (facilitators : List Text) (payer : Native) (limit : Limit)
    (assembled : Option Transaction)
    → validate_auth_entries op facilitators payer limit assembled ≡ go tt
    → (op.auth ≢ []) × All (EntryFits facilitators limit) op.auth × PayerSigned assembled payer
validate_auth_entries-PayerSigned op facilitators payer limit assembled h =
    let (status, found, entries, some_auth, signed, settled) =
      validated op facilitators payer limit assembled h in
    (
      λ e. some_auth (ap length (sym e)),
      check_auth_entries-All facilitators payer limit op.auth entries,
      PayerSigned-of_status assembled status payer found signed settled,
    )
