-- ===== src/Gate/Protect/Laws.antt =====
-- Proofs about the evaluation of a request: grants and refusals.
use verivyx_monorepo.Prelude.{
  ◌≡◌, ◌⊎◌, refl, inl, inr, subst, true, false, Option, none, some, List, [], Text,
}
use verivyx_monorepo.Gate.Types.{
  Request, Response, FailMode, teaser, open_mode, closed, Result, returned, backend_unreachable,
  failed, returned-bind,
}
use verivyx_monorepo.Gate.Detect.{
  Classification, paid, verified, signed_agent, ai_bot, crawler, human, unknown, ClassifyResult,
  classify,
}
use verivyx_monorepo.Gate.Decision.{
  GateDecision, build_402, build_503, build_200_preview, build_error_response, build_response_fn,
  response_for, on_error, make_decision, apply_fail_mode, preview_of,
}
use verivyx_monorepo.Gate.Protect.{
  AuthorizeResult, answered, required, Engine, build_canonical_402, payment_header, bearer_of,
  bot_decision, bot_402, preview_decision, refusal_decision, human_reason, preview_else_402,
  human_gate, granted, after_payment, after_session, decide, catch_unreachable, evaluate,
}

pub returned_inj : {A : Type 0} (a b : A) → returned a ≡ returned b → a ≡ b
returned_inj a b h = cc h

module _ (engine : Engine) (req : Request) (slug : Text) (preview : Option (Result Text)) where
  -- The backend authorized the payment that the request carries, or its session, or it was not
  -- reached and the configuration lets requests pass then.
  pub data Grant : (receipt : Option Text) → Type 0 where
    by_payment :
        (visitor : ClassifyResult) (transaction receipt : Option Text)
        → classify engine.classify_deps req ≡ returned visitor
        → visitor.classification ≡ paid
        → engine.client.authorize slug (payment_header req) none
          ≡ returned (answered true transaction receipt)
        → Grant receipt
    by_session :
        (visitor : ClassifyResult) (transaction receipt : Option Text)
        → classify engine.classify_deps req ≡ returned visitor
        → visitor.classification ≡ verified
        → engine.client.authorize slug none (bearer_of req)
          ≡ returned (answered true transaction receipt)
        → Grant none
    by_outage :
        (visitor : ClassifyResult)
        → classify engine.classify_deps req ≡ returned visitor
        → decide engine req slug preview visitor.classification visitor.signals
          ≡ backend_unreachable
        → engine.cfg.fail_mode ≡ open_mode
        → Grant none

  -- A refusal: the 402 for this request, the 402 of the teaser mode, the 503, or the page of the
  -- preview.
  abbrev pub Sealed : Response → Type 0
  Sealed response =
      ((accepts : List Text) × (response
          ≡ build_402 engine.encode (some (build_canonical_402 req accepts)) accepts))
      ⊎ (response ≡ build_402 engine.encode none [])
      ⊎ (response ≡ build_503)
      ⊎ ((page : Text) × (preview ≡ some (returned page)) × (response ≡ build_200_preview page))

  abbrev pub Decided : GateDecision → Type 0
  Decided d =
      (d.allowed ≡ true × Grant d.payment_response) ⊎ (d.allowed ≡ false × Sealed d.response)

  abbrev pub Decides : Result GateDecision → Type 0
  Decides m = (d : GateDecision) → m ≡ returned d → Decided d

  Decides-returned : (d : GateDecision) → Decided d → Decides (returned d)
  Decides-returned d h e same = subst Decided (returned_inj d e same) h

  bot-Decided :
      (signals requirements : List Text)
      → Decided (bot_decision engine req slug preview signals requirements)
  unfolding bot_decision make_decision build_response_fn response_for build_402
  bot-Decided signals requirements = inr (refl, inl (requirements, refl))

  Decides-bot_402 :
      (signals : List Text) (accepts : Option (List Text))
      → Decides (bot_402 engine req slug preview signals accepts)
  unfolding bot_402
  Decides-bot_402 signals (some accepts) d h = Decides-returned _ (bot-Decided signals accepts) d h
  Decides-bot_402 signals none d h =
      let (accepts, told, same) = returned-bind (engine.client.requirements slug) _ d h in
      Decides-returned _ (bot-Decided signals _) d same

  refusal-Decided :
      (c : Classification) (signals requirements : List Text)
      → Decided (
          refusal_decision engine req slug preview
            (human_reason engine req slug preview c)
            signals
            requirements)
  unfolding refusal_decision make_decision build_response_fn response_for build_402
  refusal-Decided crawler signals requirements = inr (refl, inl (requirements, refl))
  refusal-Decided paid signals requirements = inr (refl, inl (requirements, refl))
  refusal-Decided verified signals requirements = inr (refl, inl (requirements, refl))
  refusal-Decided signed_agent signals requirements = inr (refl, inl (requirements, refl))
  refusal-Decided ai_bot signals requirements = inr (refl, inl (requirements, refl))
  refusal-Decided human signals requirements = inr (refl, inl (requirements, refl))
  refusal-Decided unknown signals requirements = inr (refl, inl (requirements, refl))

  preview-Decided :
      (c : Classification) (signals : List Text) (page : Text)
      → preview ≡ some (returned page)
      → Decided (
          preview_decision engine req slug preview
            (human_reason engine req slug preview c)
            signals
            page)
  unfolding preview_decision make_decision build_response_fn response_for
  preview-Decided crawler signals page built = inr (refl, inr (inr (inr (page, built, refl))))
  preview-Decided paid signals page built = inr (refl, inr (inr (inr (page, built, refl))))
  preview-Decided verified signals page built = inr (refl, inr (inr (inr (page, built, refl))))
  preview-Decided signed_agent signals page built = inr (refl, inr (inr (inr (page, built, refl))))
  preview-Decided ai_bot signals page built = inr (refl, inr (inr (inr (page, built, refl))))
  preview-Decided human signals page built = inr (refl, inr (inr (inr (page, built, refl))))
  preview-Decided unknown signals page built = inr (refl, inr (inr (inr (page, built, refl))))

  Decides-preview_else_402 :
      (c : Classification) (signals : List Text) (given : Option (Result Text))
      → preview ≡ given
      → Decides (
          preview_else_402 engine req slug preview
            (human_reason engine req slug preview c)
            signals
            given)
  Decides-preview_else_402 c signals (some build) same d h =
      let (page, built, rest) = returned-bind build _ d h in
      Decides-returned _ (preview-Decided c signals page (cc (same, built))) d rest
  Decides-preview_else_402 c signals none same d h =
      let (accepts, told, rest) = returned-bind (engine.client.requirements slug) _ d h in
      Decides-returned _ (refusal-Decided c signals _) d rest

  Decides-human_gate :
      (c : Classification) (signals : List Text)
      → Decides (human_gate engine req slug preview c signals)
  unfolding human_gate
  Decides-human_gate c signals = Decides-preview_else_402 c signals preview refl

  teaser-Sealed :
      (given : Option (Result Text))
      → preview ≡ given
      → Sealed (build_error_response engine.encode teaser (preview_of given))
  unfolding build_error_response build_402
  teaser-Sealed (some (returned page)) same = inr (inr (inr (page, same, refl)))
  teaser-Sealed (some backend_unreachable) same = inr (inl refl)
  teaser-Sealed (some failed) same = inr (inl refl)
  teaser-Sealed none same = inr (inl refl)

  module _ (visitor : ClassifyResult)
      (known : classify engine.classify_deps req ≡ returned visitor) where
    Decides-after_payment :
        (answer : AuthorizeResult)
        → visitor.classification ≡ paid
        → engine.client.authorize slug (payment_header req) none ≡ returned answer
        → Decides (after_payment engine req slug preview visitor.signals answer)
    unfolding after_payment granted make_decision
    Decides-after_payment (required accepts) class told = Decides-bot_402 visitor.signals (some _)
    Decides-after_payment (answered false transaction receipt) class told =
        Decides-bot_402 visitor.signals none
    Decides-after_payment (answered true transaction receipt) class told =
        Decides-returned _ (inl (refl, by_payment visitor transaction receipt known class told))

    Decides-after_session :
        (answer : AuthorizeResult)
        → visitor.classification ≡ verified
        → engine.client.authorize slug none (bearer_of req) ≡ returned answer
        → Decides (after_session engine req slug preview visitor.signals answer)
    unfolding after_session granted make_decision
    Decides-after_session (required accepts) class told =
        Decides-human_gate verified visitor.signals
    Decides-after_session (answered false transaction receipt) class told =
        Decides-human_gate verified visitor.signals
    Decides-after_session (answered true transaction receipt) class told =
        Decides-returned _ (inl (refl, by_session visitor transaction receipt known class told))

    Decides-decide :
        (c : Classification)
        → visitor.classification ≡ c
        → Decides (decide engine req slug preview c visitor.signals)
    unfolding decide
    Decides-decide paid class d h =
        let (answer, told, rest) =
          returned-bind (engine.client.authorize slug (payment_header req) none) _ d h in
        Decides-after_payment answer class told d rest
    Decides-decide verified class d h =
        let (answer, told, rest) =
          returned-bind (engine.client.authorize slug none (bearer_of req)) _ d h in
        Decides-after_session answer class told d rest
    Decides-decide signed_agent class d h = Decides-bot_402 visitor.signals none d h
    Decides-decide ai_bot class d h = Decides-bot_402 visitor.signals none d h
    Decides-decide crawler class d h = Decides-human_gate crawler visitor.signals d h
    Decides-decide human class d h = Decides-human_gate human visitor.signals d h
    Decides-decide unknown class d h = Decides-human_gate unknown visitor.signals d h

    outage-Decided :
        (mode : FailMode)
        → engine.cfg.fail_mode ≡ mode
        → decide engine req slug preview visitor.classification visitor.signals
          ≡ backend_unreachable
        → Decided (apply_fail_mode engine.encode mode preview)
    unfolding apply_fail_mode on_error build_error_response build_402
    outage-Decided open_mode mode down = inl (refl, by_outage visitor known down mode)
    outage-Decided closed mode down = inr (refl, inr (inr (inl refl)))
    outage-Decided teaser mode down = inr (refl, teaser-Sealed preview refl)

    Decides-catch_unreachable :
        (m : Result GateDecision)
        → decide engine req slug preview visitor.classification visitor.signals ≡ m
        → Decides m
        → Decides (catch_unreachable engine req slug preview m)
    unfolding catch_unreachable
    Decides-catch_unreachable (returned e) same sound d h = sound d h
    Decides-catch_unreachable failed same sound d h = cc
    Decides-catch_unreachable backend_unreachable same sound d h =
        Decides-returned _ (outage-Decided engine.cfg.fail_mode refl same) d h

  pub Decides-evaluate : Decides (evaluate engine req slug preview)
  unfolding evaluate
  Decides-evaluate d h =
      let (visitor, known, rest) = returned-bind (classify engine.classify_deps req) _ d h in
      Decides-catch_unreachable visitor known
        (decide engine req slug preview visitor.classification visitor.signals) refl
        (Decides-decide visitor known visitor.classification refl) d rest
