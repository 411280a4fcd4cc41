-- ===== src/Gate/Protect.antt =====
-- index.ts and settle.ts: the evaluation of a request and the wrapped handler.
pub mod Laws
pub mod Headers
pub mod Access
use verivyx_monorepo.Prelude.{
  ℕ, Bool, true, false, not, ◌&&◌, ◌||◌, Option, none, some, or_default, List, [], ◌∷◌, ◌++◌, Text,
  codes, text_eq, starts_with, includes, drop, filter, ◌==◌, if◌then◌else◌,
}
use verivyx_monorepo.Prelude.Parse.{split, trim}
use verivyx_monorepo.Gate.Types.{
  Request, PaymentRequiredBody, Response, ResolvedConfig, Result, returned, backend_unreachable,
  failed, ◌>>=◌,
}
use verivyx_monorepo.Gate.Glob.{is_matched}
use verivyx_monorepo.Gate.Detect.{
  Classification, paid, verified, signed_agent, ai_bot, crawler, human, unknown, ClassifyDeps,
  ClassifyResult, classify, lower_case,
}
use verivyx_monorepo.Gate.Decision.{GateReason, GateDecision, make_decision, apply_fail_mode}
use verivyx_monorepo.Gate.Decision as Decision

-- What authorize answers: whether the caller is authorized, or a 402 with its accepts, if any.
pub data AuthorizeResult : Type 0 where
  answered : (authorized : Bool) (transaction payment_response : Option Text) → AuthorizeResult
  required : (accepts : Option (List Text)) → AuthorizeResult

-- `requirements` gives the accepts of the body.
pub record EngineClient : Type 0 where
  pub authorize : (slug : Text) (payment_header bearer : Option Text) → Result AuthorizeResult
  pub requirements : (slug : Text) → Result (Option (List Text))

-- `encode` is the base64 of a body's JSON.
pub record Engine : Type 0 where
  pub cfg : ResolvedConfig
  pub client : EngineClient
  pub classify_deps : ClassifyDeps
  pub encode : PaymentRequiredBody → Text
  pub decode_uri_component : Text → Option Text

abbrev extract_accepts : Option (List Text) → List Text
extract_accepts accepts = or_default accepts []

unfoldable pub resolve_resource_mime : Request → Text
resolve_resource_mime req =
    let accept = lower_case (or_default (req.header (codes "accept")) []) in
    if includes accept (codes "application/json") && not (includes accept (codes "text/html"))
    then codes "application/json"
    else codes "text/html"

unfoldable pub build_canonical_402 : Request → List Text → PaymentRequiredBody
unfolding resolve_resource_mime
build_canonical_402 req requirements = record {
  error = codes "payment_required";
  url = req.url;
  mime_type = resolve_resource_mime req;
  accepts = requirements;
}

-- The text before the first `=` and the text after it.
unfoldable pub cut_at_equals : Text → Option (Text × Text)
cut_at_equals [] = none
cut_at_equals (c ∷ t) = elim (c == b'=') [
  | true ↦ some ([], t)
  | false ↦ elim (cut_at_equals t) [ none ↦ none | some p ↦ some (c ∷ p.0, p.1) ]
]

unfoldable pub find_cookie : Text → List Text → Option Text
unfolding cut_at_equals
find_cookie name [] = none
find_cookie name (part ∷ parts) = elim (cut_at_equals part) [
  | none ↦ find_cookie name parts
  | some p ↦ if text_eq (trim p.0) name then some (trim p.1) else find_cookie name parts
]

unfoldable pub get_cookie : Request → Text → Option Text
unfolding find_cookie
get_cookie req name = find_cookie name (split b';' (or_default (req.header (codes "cookie")) []))

-- `req.headers.get("payment-signature") ?? req.headers.get("x-payment")`.
abbrev pub payment_header : Request → Option Text
payment_header req = elim (req.header (codes "payment-signature")) [
  | some given ↦ some given
  | none ↦ req.header (codes "x-payment")
]

unfoldable pub bearer_of : Request → Option Text
unfolding get_cookie
bearer_of req =
    let authorization = or_default (req.header (codes "authorization")) [] in
    if starts_with (lower_case authorization) (codes "bearer ")
    then some (trim (drop 7 authorization))
    else get_cookie req (codes "vx_session")

module _ (engine : Engine) (req : Request) (slug : Text) (preview : Option (Result Text)) where
  unfoldable pub bot_decision : List Text → List Text → GateDecision
  unfolding make_decision build_canonical_402
  bot_decision signals requirements = make_decision engine.encode engine.cfg (record {
    reason = Decision.bot_unpaid;
    payment_requirements = some requirements;
    preview_html = none;
    prebuilt_402 = some (build_canonical_402 req requirements);
    signals = signals;
  })

  unfoldable pub bot_402 : List Text → Option (List Text) → Result GateDecision
  bot_402 signals (some accepts) = returned (bot_decision signals accepts)
  bot_402 signals none = engine.client.requirements slug >>= λ accepts.
      returned (bot_decision signals (extract_accepts accepts))

  unfoldable pub preview_decision : GateReason → List Text → Text → GateDecision
  unfolding make_decision
  preview_decision reason signals page = make_decision engine.encode engine.cfg (record {
    reason = reason;
    payment_requirements = none;
    preview_html = some page;
    prebuilt_402 = none;
    signals = signals;
  })

  unfoldable pub refusal_decision : GateReason → List Text → List Text → GateDecision
  unfolding make_decision build_canonical_402
  refusal_decision reason signals requirements = make_decision engine.encode engine.cfg (record {
    reason = reason;
    payment_requirements = some requirements;
    preview_html = none;
    prebuilt_402 = some (build_canonical_402 req requirements);
    signals = signals;
  })

  abbrev pub human_reason : Classification → GateReason
  human_reason crawler = Decision.crawler
  human_reason _ = Decision.human_unverified

  abbrev pub preview_else_402 : GateReason → List Text → Option (Result Text) → Result GateDecision
  preview_else_402 reason signals (some page) =
      page >>= λ html. returned (preview_decision reason signals html)
  preview_else_402 reason signals none = engine.client.requirements slug >>= λ accepts.
      returned (refusal_decision reason signals (extract_accepts accepts))

  unfoldable pub human_gate : Classification → List Text → Result GateDecision
  human_gate classification signals = preview_else_402 (human_reason classification) signals preview

  unfoldable pub granted : GateReason → List Text → Option Text → Option Text → GateDecision
  unfolding make_decision
  granted reason signals transaction receipt =
      record (make_decision engine.encode engine.cfg (record {
        reason = reason;
        payment_requirements = none;
        preview_html = none;
        prebuilt_402 = none;
        signals = signals;
      })) { transaction = transaction; payment_response = receipt }

  unfoldable pub after_payment : List Text → AuthorizeResult → Result GateDecision
  unfolding bot_402
  after_payment signals (required accepts) = bot_402 signals (some (extract_accepts accepts))
  after_payment signals (answered true transaction receipt) =
      returned (granted Decision.paid signals transaction receipt)
  after_payment signals (answered false transaction receipt) = bot_402 signals none

  unfoldable pub after_session : List Text → AuthorizeResult → Result GateDecision
  unfolding human_gate
  after_session signals (answered true transaction receipt) =
      returned (granted Decision.verified signals transaction none)
  after_session signals (answered false transaction receipt) = human_gate verified signals
  after_session signals (required accepts) = human_gate verified signals

  -- The body of the `try`.
  unfoldable pub decide : Classification → List Text → Result GateDecision
  unfolding after_payment after_session
  decide paid signals =
      engine.client.authorize slug (payment_header req) none >>= after_payment signals
  decide verified signals =
      engine.client.authorize slug none (bearer_of req) >>= after_session signals
  decide signed_agent signals = bot_402 signals none
  decide ai_bot signals = bot_402 signals none
  decide crawler signals = human_gate crawler signals
  decide human signals = human_gate human signals
  decide unknown signals = human_gate unknown signals

  unfoldable pub catch_unreachable : Result GateDecision → Result GateDecision
  unfolding apply_fail_mode
  catch_unreachable backend_unreachable =
      returned (apply_fail_mode engine.encode engine.cfg.fail_mode preview)
  catch_unreachable m = m

  -- The classification is outside of the `try`.
  unfoldable pub evaluate : Result GateDecision
  unfolding decide catch_unreachable
  evaluate = classify engine.classify_deps req >>= λ visitor.
      catch_unreachable (decide visitor.classification visitor.signals)

abbrev last_of : List Text → Option Text
last_of [] = none
last_of (w ∷ []) = some w
last_of (w ∷ v ∷ ws) = last_of (v ∷ ws)

abbrev non_empty : Text → Bool
non_empty [] = false
non_empty (c ∷ t) = true

abbrev decoded : (Text → Option Text) → Option Text → Text
decoded decode none = []
decoded decode (some segment) = or_default (decode segment) segment

-- Without a slug of the caller: the last segment of the path.
unfoldable pub derive_slug : (Text → Option Text) → Option Text → Text
derive_slug decode none = []
derive_slug decode (some pathname) =
    decoded decode (last_of (filter non_empty (split b'/' pathname)))

-- Names of headers compare without case.
unfoldable pub set_header : Text → Text → List (Text × Text) → List (Text × Text)
set_header name value headers =
    filter (λ h. not (text_eq (lower_case h.0) (lower_case name))) headers ++ (name, value) ∷ []

unfoldable pub attach_payment_response : Response → Option Text → Response
unfolding set_header
attach_payment_response res none = res
attach_payment_response res (some receipt) = record res {
  headers = set_header (codes "PAYMENT-RESPONSE") receipt res.headers;
}

-- The handler ran, with what came of it; or it did not, and this is the response.
pub data Reply : Type 0 where
  passed : Result Response → Reply
  refused : Response → Reply

unfoldable pub reply_for : (Request → Result Response) → Request → GateDecision → Reply
unfolding attach_payment_response
reply_for handler req decision =
    if decision.allowed
    then passed
        (handler req >>= λ res. returned (attach_payment_response res decision.payment_response))
    else refused decision.response

abbrev pub preview_for : Option (Text → Result Text) → Text → Option (Result Text)
preview_for none slug = none
preview_for (some build) slug = some (build slug)

-- The wrapped handler; `seo_preview` is what the preview builder does for a slug, if one is given.
unfoldable pub protect :
    Engine → (Request → Result Response) → Option (Text → Result Text) → Request → Result Reply
unfolding evaluate reply_for derive_slug
protect engine handler seo_preview req =
    let slug = derive_slug engine.decode_uri_component req.pathname in
    let preview = preview_for seo_preview slug in
    if is_matched req engine.cfg.match_patterns
    then evaluate engine req slug preview
      >>= (λ decision. returned (reply_for handler req decision))
    else returned (passed (handler req))
