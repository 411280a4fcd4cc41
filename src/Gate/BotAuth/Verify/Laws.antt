-- ===== src/Gate/BotAuth/Verify/Laws.antt =====
-- Proofs about the signatures that the verifier accepts.
use verivyx_monorepo.Prelude.{
  ℕ, ◌≡◌, refl, inl, inr, Bool, true, false, Option, none, some, List, [], ◌∷◌, Text, codes, All,
  Any, Bool-cases, arith,
}
use verivyx_monorepo.Prelude.Maps.{map_get}
use verivyx_monorepo.Gate.Types.{Request}
use verivyx_monorepo.Gate.BotAuth.Fields.{
  Builtins, SigSpec, parse_signature_input, parse_signature_header,
}
use verivyx_monorepo.Gate.BotAuth.Keys.{Jwk, Url, Crypto, Surroundings, Cache, resolve_key}
use verivyx_monorepo.Gate.BotAuth.Keys.Laws.{Names, IsNamed, resolve_key-Names}
use verivyx_monorepo.Gate.BotAuth.Verify.{
  is_acceptable, build_signature_base, signature_agent, verified, verify_base, verify_url,
  verify_key, keyid_of, verify_one, after_one, try_sig, verify_any, verify_fields, parse_if_given,
  verify_web_bot_auth,
}
use verivyx_monorepo.Gate.BotAuth.Verify.Freshness.{
  IsCurrent, CoversTarget, is_acceptable_sound, or_default-true,
}

module _ {Key : Type 0} (crypto : Crypto Key) where
  -- A current signature of the request, verified with an Ed25519 key that has the thumbprint it names.
  pub record IsSigned (now : ℕ) (req : Request) (spec : SigSpec) (sig : List ℕ) : Type 0 where
    pub tag : spec.params.tag ≡ some (codes "web-bot-auth")
    pub current : IsCurrent now spec
    pub covers : CoversTarget spec
    pub jwk : Jwk
    pub names : Names crypto (keyid_of spec) jwk
    pub key : Key
    pub imported : crypto.import_key jwk ≡ some key
    pub url : Url
    pub parsed : crypto.parse_url req.url ≡ some url
    pub base : Text
    pub built : build_signature_base url (signature_agent req) spec ≡ some base
    pub verified : crypto.verify_signature key sig base ≡ some true

  verified_inv :
      (sig : List ℕ) (base : Text) (key : Option Key)
      → verified crypto sig base key ≡ true
      → (k : Key) × (key ≡ some k) × (crypto.verify_signature k sig base ≡ some true)
  verified_inv sig base none h = absurd cc
  verified_inv sig base (some k) h =
      (k, refl, or_default-true (crypto.verify_signature k sig base) h)

  verify_key-IsSigned :
      (now : ℕ) (req : Request) (spec : SigSpec) (sig : List ℕ) (found : Option Jwk)
      → ((jwk : Jwk) → found ≡ some jwk → Names crypto (keyid_of spec) jwk)
      → is_acceptable now spec ≡ true
      → verify_key crypto req spec sig found ≡ some true
      → IsSigned now req spec sig
  unfolding verify_key verify_url
  verify_key-IsSigned now req spec sig none names acceptable h = absurd cc
  verify_key-IsSigned now req spec sig (some jwk) names acceptable h =
      by_url (crypto.parse_url req.url) refl h
    where
      by_base :
          (url : Url) (base : Option Text)
          → crypto.parse_url req.url ≡ some url
          → build_signature_base url (signature_agent req) spec ≡ base
          → verify_base crypto sig jwk base ≡ true
          → IsSigned now req spec sig
      by_base url none parsed built r = absurd cc
      by_base url (some base) parsed built r =
          let (key, imported, answer) = verified_inv sig base (crypto.import_key jwk) r in
          let (tag, current, covers) = is_acceptable_sound now spec acceptable in
          record {
            tag = tag;
            current = current;
            covers = covers;
            jwk = jwk;
            names = names jwk refl;
            key = key;
            imported = imported;
            url = url;
            parsed = parsed;
            base = base;
            built = built;
            verified = answer;
          }

      by_url :
          (o : Option Url)
          → crypto.parse_url req.url ≡ o
          → verify_url crypto req spec sig jwk o ≡ some true
          → IsSigned now req spec sig
      by_url none parsed r = absurd cc
      by_url (some url) parsed r =
          by_base url (build_signature_base url (signature_agent req) spec) parsed refl
            (ground arith)

  verify_one_lem :
      (env : Surroundings) (now : ℕ) (req : Request) (spec : SigSpec) (sig : List ℕ) (cache : Cache)
      → All (IsNamed crypto) cache
      → All (IsNamed crypto) (verify_one crypto env now req spec sig cache).0
        × ((verify_one crypto env now req spec sig cache).1 ≡ some true → IsSigned now req spec sig)
  unfolding verify_one
  verify_one_lem env now req spec sig cache named =
      let resolved = resolve_key crypto env (keyid_of spec) (signature_agent req) cache in
      let (kept, names) =
        resolve_key-Names crypto env (keyid_of spec) (signature_agent req) cache named in
      elim (Bool-cases (is_acceptable now spec)) [
        | inl acceptable ↦
            rw acceptable (kept, verify_key-IsSigned now req spec sig resolved.1 names acceptable)
        | inr refused ↦ rw refused (named, λ h. absurd (cc h))
      ]

  -- A signature of the request among those of its headers.
  pub record SignedBy (now : ℕ) (req : Request) (sigs : List (Text × List ℕ))
      (inputs : List (Text × SigSpec)) : Type 0 where
    pub label : Text
    pub spec : SigSpec
    pub sig : List ℕ
    pub input : Any (λ p. p ≡ (label, spec)) inputs
    pub given : map_get sigs label ≡ some sig
    pub signed : IsSigned now req spec sig

  -- The cache stays one of named keys, and a positive answer has its reason.
  abbrev Justified : Type 0 → Cache × Bool → Type 0
  Justified Reason r = All (IsNamed crypto) r.0 × (r.1 ≡ true → Reason)

  after_one-Justified :
      (Reason : Type 0) (r : Cache × Option Bool) (rest : Cache → Cache × Bool)
      → All (IsNamed crypto) r.0
      → (r.1 ≡ some true → Reason)
      → ((c : Cache) → All (IsNamed crypto) c → Justified Reason (rest c))
      → Justified Reason (after_one crypto r rest)
  after_one-Justified Reason (c, some true) rest kept signed later = (kept, λ h. signed refl)
  after_one-Justified Reason (c, some false) rest kept signed later = later c kept
  after_one-Justified Reason (c, none) rest kept signed later = (kept, λ h. absurd (cc h))

  try_sig-Justified :
      (Reason : Type 0) (env : Surroundings) (now : ℕ) (req : Request) (spec : SigSpec)
      (rest : Cache → Cache × Bool) (o : Option (List ℕ)) (cache : Cache)
      → All (IsNamed crypto) cache
      → ((sig : List ℕ) → o ≡ some sig → IsSigned now req spec sig → Reason)
      → ((c : Cache) → All (IsNamed crypto) c → Justified Reason (rest c))
      → Justified Reason (try_sig crypto env now req spec rest o cache)
  unfolding try_sig
  try_sig-Justified Reason env now req spec rest none cache named signed later = later cache named
  try_sig-Justified Reason env now req spec rest (some sig) cache named signed later =
      let (kept, by_this) = verify_one_lem env now req spec sig cache named in
      after_one-Justified Reason (verify_one crypto env now req spec sig cache) rest kept
        (λ h. signed sig refl (by_this h)) later

  later_label :
      (now : ℕ) (req : Request) (sigs : List (Text × List ℕ)) (p : Text × SigSpec)
      (inputs : List (Text × SigSpec))
      → SignedBy now req sigs inputs
      → SignedBy now req sigs (p ∷ inputs)
  later_label now req sigs p inputs s = record {
    label = s.label;
    spec = s.spec;
    sig = s.sig;
    input = inr s.input;
    given = s.given;
    signed = s.signed;
  }

  verify_any-Justified :
      (env : Text → Surroundings) (now : ℕ) (req : Request) (sigs : List (Text × List ℕ))
      (inputs : List (Text × SigSpec)) (cache : Cache)
      → All (IsNamed crypto) cache
      → Justified (SignedBy now req sigs inputs) (verify_any crypto env now req sigs inputs cache)
  unfolding verify_any
  verify_any-Justified env now req sigs [] cache named = (named, λ h. absurd (cc h))
  verify_any-Justified env now req sigs ((label, spec) ∷ inputs) cache named =
      try_sig-Justified (SignedBy now req sigs ((label, spec) ∷ inputs)) (env label) now req spec
        (verify_any crypto env now req sigs inputs) (map_get sigs label) cache named
        (λ sig given signed. record {
          label = label;
          spec = spec;
          sig = sig;
          input = inl refl;
          given = given;
          signed = signed;
        })
        (λ c kept.
          let (kept_on, reason) = verify_any-Justified env now req sigs inputs c kept in
          (kept_on, λ h. later_label now req sigs (label, spec) inputs (reason h)))

  -- What makes the verifier accept a request.
  pub record Accepted (js : Builtins) (now : ℕ) (req : Request) : Type 0 where
    pub inputs : List (Text × SigSpec)
    pub sigs : List (Text × List ℕ)
    pub inputs_parsed :
        parse_if_given crypto (parse_signature_input js) (req.header (codes "signature-input"))
        ≡ some inputs
    pub sigs_parsed :
        parse_if_given crypto (parse_signature_header js) (req.header (codes "signature"))
        ≡ some sigs
    pub signed_by : SignedBy now req sigs inputs

  verify_fields-Justified :
      (js : Builtins) (env : Text → Surroundings) (now : ℕ) (req : Request)
      (inputs : Option (List (Text × SigSpec))) (sigs : Option (List (Text × List ℕ)))
      (cache : Cache)
      → All (IsNamed crypto) cache
      → parse_if_given crypto (parse_signature_input js) (req.header (codes "signature-input"))
        ≡ inputs
      → parse_if_given crypto (parse_signature_header js) (req.header (codes "signature")) ≡ sigs
      → Justified (Accepted js now req) (verify_fields crypto env now req inputs sigs cache)
  unfolding verify_fields
  verify_fields-Justified js env now req (some inputs) (some sigs) cache named i s =
      let (kept, reason) = verify_any-Justified env now req sigs inputs cache named in
      (
        kept,
        λ h. record {
          inputs = inputs;
          sigs = sigs;
          inputs_parsed = i;
          sigs_parsed = s;
          signed_by = reason h;
        },
      )
  verify_fields-Justified js env now req none sigs cache named i s = (named, λ h. absurd (cc h))
  verify_fields-Justified js env now req (some inputs) none cache named i s =
      (named, λ h. absurd (cc h))

  verify_web_bot_auth-Justified :
      (js : Builtins) (env : Text → Surroundings) (now : ℕ) (req : Request) (cache : Cache)
      → All (IsNamed crypto) cache
      → Justified (Accepted js now req) (verify_web_bot_auth crypto js env now req cache)
  unfolding verify_web_bot_auth
  verify_web_bot_auth-Justified js env now req cache named =
      verify_fields-Justified js env now req _ _ cache named refl refl

  -- Every call of the verifier keeps the cache one of Ed25519 keys that have the thumbprints they are
  -- kept under.
  pub verify_web_bot_auth-IsNamed :
      (js : Builtins) (env : Text → Surroundings) (now : ℕ) (req : Request) (cache : Cache)
      → All (IsNamed crypto) cache
      → All (IsNamed crypto) (verify_web_bot_auth crypto js env now req cache).0
  verify_web_bot_auth-IsNamed js env now req cache named =
      (verify_web_bot_auth-Justified js env now req cache named).0

  -- On a cache whose keys have the thumbprints they are kept under, the verifier accepts a request
  -- only with a signature of its headers for a label of both: tagged for bots, not created more than
  -- a minute from now, not expired, valid for a day at most, over the authority and the target, and
  -- verified over the request's own signature base with an Ed25519 key that has the thumbprint it names.
  pub verify_web_bot_auth-Accepted :
      (js : Builtins) (env : Text → Surroundings) (now : ℕ) (req : Request) (cache : Cache)
      → All (IsNamed crypto) cache
      → (verify_web_bot_auth crypto js env now req cache).1 ≡ true
      → Accepted js now req
  verify_web_bot_auth-Accepted js env now req cache named =
      (verify_web_bot_auth-Justified js env now req cache named).1
