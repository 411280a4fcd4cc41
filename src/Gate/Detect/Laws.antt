-- ===== src/Gate/Detect/Laws.antt =====
-- Proofs about the classifier: the evidence for each class.
use verivyx_monorepo.Prelude.{
  ◌≡◌, ◌⊎◌, refl, inl, inr, Bool, true, false, Option, none, some, List, [], ◌∷◌, Text, includes,
  find, any, arith, subst,
}
use verivyx_monorepo.Gate.Types.{Request, Result, returned, returned-bind}
use verivyx_monorepo.Gate.Detect.{
  Classification, paid, verified, signed_agent, ai_bot, crawler, human, unknown, ClassifyDeps,
  ClassifyResult, crawler_needles, ai_bot_needles, lower_case, has_payment_header, has_session,
  user_agent, verify_crawler, by_ai_needle, by_user_agent, ai_result, crawler_result,
  by_crawler_needle, unless_signed, unless_session, unless_paid, classify,
}

-- The user agent, in lower case, contains the needle.
abbrev pub ua_has : Request → Text → Bool
ua_has req = includes (lower_case (user_agent req))

-- It contains one of the needles.
abbrev pub Claims : List Text → Request → Type 0
Claims needles req = any (ua_has req) needles ≡ true

abbrev pub IsUnsigned : ClassifyDeps → Request → Type 0
IsUnsigned deps req =
    (has_payment_header req ≡ false)
    × (has_session req ≡ false)
    × (deps.verify_web_bot_auth req ≡ returned false)

-- What a class says of a request.
abbrev pub Evidence : ClassifyDeps → Request → Classification → Type 0
Evidence deps req paid = has_payment_header req ≡ true
Evidence deps req verified = (has_payment_header req ≡ false) × (has_session req ≡ true)
Evidence deps req signed_agent =
    (has_payment_header req ≡ false)
    × (has_session req ≡ false)
    × (deps.verify_web_bot_auth req ≡ returned true)
Evidence deps req crawler =
    IsUnsigned deps req
    × Claims crawler_needles req
    × (verify_crawler deps.verify_crawler_dns req ≡ returned true)
Evidence deps req ai_bot =
    IsUnsigned deps req
    × ((Claims crawler_needles req × (verify_crawler deps.verify_crawler_dns req ≡ returned false))
        ⊎ (any (ua_has req) crawler_needles ≡ false × Claims ai_bot_needles req))
Evidence deps req human =
    IsUnsigned deps req
    × (any (ua_has req) crawler_needles ≡ false)
    × (any (ua_has req) ai_bot_needles ≡ false)
Evidence deps req unknown = ⊥

find-some :
    (p : Text → Bool) (needles : List Text) (needle : Text)
    → find p needles ≡ some needle
    → any p needles ≡ true
find-some p [] needle h = cc
find-some p (n ∷ needles) needle h = ground (arith, find-some p needles needle)

find-none : (p : Text → Bool) (needles : List Text) → find p needles ≡ none → any p needles ≡ false
find-none p [] h = refl
find-none p (n ∷ needles) h = ground (arith, find-none p needles)

classification_of :
    (r : ClassifyResult) (c : Classification) (tags : List Text)
    → returned (record { classification = c; signals = tags }) ≡ returned r
    → c ≡ r.classification
classification_of r c tags h = cc

abbrev Tells : ClassifyDeps → Request → Result ClassifyResult → Type 0
Tells deps req m = (r : ClassifyResult) → m ≡ returned r → Evidence deps req r.classification

module _ (deps : ClassifyDeps) (req : Request) where
  Tells-result :
      (c : Classification) (tags : List Text)
      → Evidence deps req c
      → Tells deps req (returned (record { classification = c; signals = tags }))
  Tells-result c tags evidence r h =
      subst (Evidence deps req) (classification_of r c tags h) evidence

  Tells-ai_result :
      (o : Option Text)
      → IsUnsigned deps req
      → find (ua_has req) crawler_needles ≡ none
      → find (ua_has req) ai_bot_needles ≡ o
      → Tells deps req (ai_result o)
  Tells-ai_result (some needle) unsigned plain found = Tells-result ai_bot _ (
    unsigned,
    inr (
      find-none (ua_has req) crawler_needles plain,
      find-some (ua_has req) ai_bot_needles needle found,
    ),
  )
  Tells-ai_result none unsigned plain missing = Tells-result human _ (
    unsigned,
    find-none (ua_has req) crawler_needles plain,
    find-none (ua_has req) ai_bot_needles missing,
  )

  Tells-crawler_result :
      (needle : Text) (verdict : Bool)
      → IsUnsigned deps req
      → Claims crawler_needles req
      → verify_crawler deps.verify_crawler_dns req ≡ returned verdict
      → Tells deps req (crawler_result needle verdict)
  Tells-crawler_result needle true unsigned claims told =
      Tells-result crawler _ (unsigned, claims, told)
  Tells-crawler_result needle false unsigned claims told =
      Tells-result ai_bot _ (unsigned, inl (claims, told))

  Tells-by_crawler_needle :
      (o : Option Text)
      → IsUnsigned deps req
      → find (ua_has req) crawler_needles ≡ o
      → Tells deps req (by_crawler_needle deps req (lower_case (user_agent req)) o)
  unfolding by_ai_needle
  Tells-by_crawler_needle none unsigned found r h =
      Tells-ai_result (find (ua_has req) ai_bot_needles) unsigned found refl r h
  Tells-by_crawler_needle (some needle) unsigned found r h =
      let (verdict, told, rest) =
        returned-bind (verify_crawler deps.verify_crawler_dns req) (crawler_result needle) r h in
      Tells-crawler_result needle verdict unsigned
        (find-some (ua_has req) crawler_needles needle found) told r rest

  Tells-unless_signed :
      (signed : Bool)
      → has_payment_header req ≡ false
      → has_session req ≡ false
      → deps.verify_web_bot_auth req ≡ returned signed
      → Tells deps req (unless_signed deps req signed)
  unfolding by_user_agent
  Tells-unless_signed true unpaid sessionless told =
      Tells-result signed_agent _ (unpaid, sessionless, told)
  Tells-unless_signed false unpaid sessionless told =
      Tells-by_crawler_needle (find (ua_has req) crawler_needles) (unpaid, sessionless, told) refl

  Tells-unless_session :
      (session : Bool)
      → has_payment_header req ≡ false
      → has_session req ≡ session
      → Tells deps req (unless_session deps req session)
  Tells-unless_session true unpaid there r h = Tells-result verified _ (unpaid, there) r h
  Tells-unless_session false unpaid absent r h =
      let (signed, told, rest) =
        returned-bind (deps.verify_web_bot_auth req) (unless_signed deps req) r h in
      Tells-unless_signed signed unpaid absent told r rest

  Tells-unless_paid :
      (payment : Bool)
      → has_payment_header req ≡ payment
      → Tells deps req (unless_paid deps req payment)
  Tells-unless_paid true there = Tells-result paid _ there
  Tells-unless_paid false absent = Tells-unless_session (has_session req) absent refl

pub classify-Evidence :
    (deps : ClassifyDeps) (req : Request) (r : ClassifyResult)
    → classify deps req ≡ returned r
    → Evidence deps req r.classification
unfolding classify
classify-Evidence deps req = Tells-unless_paid deps req (has_payment_header req) refl
