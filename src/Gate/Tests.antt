-- ===== src/Gate/Tests.antt =====
-- Visitors at the gate, and the theorems at them.
use verivyx_monorepo.Prelude.{
  ◌≡◌, ◌⊎◌, ◌↔◌, refl, true, false, if◌then◌else◌, Option, none, some, List, [], ◌∷◌, Text, codes,
  Any, text_eq, starts_with, includes,
}
use verivyx_monorepo.Prelude.Parse.{split, trim, to_lower, is_space}
use verivyx_monorepo.Gate.Types.{Request, other_body, Response, teaser, Result, returned, ◌>>=◌}
use verivyx_monorepo.Gate.Glob.{glob_pieces, run_then, test, is_matched}
use verivyx_monorepo.Gate.Glob.Laws.{Matches, is_matched_iff}
use verivyx_monorepo.Gate.Detect.{
  paid, ai_bot, ClassifyResult, extract_ip, lower_case, spaces_then_session,
  session_after_semicolon, has_session_cookie, has_payment_header, has_bearer, has_session,
  by_ai_needle, by_user_agent, classify,
}
use verivyx_monorepo.Gate.Decision.{
  build_402, build_error_response, response_for, build_response_fn, on_error, make_decision,
  apply_fail_mode,
}
use verivyx_monorepo.Gate.Protect.{
  AuthorizeResult, answered, required, Engine, resolve_resource_mime, build_canonical_402,
  cut_at_equals, find_cookie, get_cookie, payment_header, bearer_of, bot_decision, bot_402,
  preview_decision, refusal_decision, human_gate, granted, after_payment, after_session, decide,
  catch_unreachable, evaluate, derive_slug, set_header, attach_payment_response, passed, reply_for,
  protect,
}
use verivyx_monorepo.Gate.Protect.Access.{Permitted, HasReceipt, protect-Permitted, protect_serves}

gate_all : Unit {0}
unfolding text_eq starts_with includes split trim to_lower is_space glob_pieces run_then test
    is_matched extract_ip lower_case spaces_then_session session_after_semicolon has_session_cookie
    has_payment_header has_bearer has_session by_ai_needle by_user_agent classify build_402
    build_error_response response_for build_response_fn on_error make_decision apply_fail_mode
    resolve_resource_mime build_canonical_402 cut_at_equals find_cookie get_cookie bearer_of
    bot_decision bot_402 preview_decision refusal_decision human_gate granted after_payment
    after_session decide catch_unreachable evaluate derive_slug set_header attach_payment_response
    reply_for protect
gate_all = tt

abbrev headers_of : List (Text × Text) → Text → Option Text
headers_of [] name = none
headers_of (h ∷ hs) name = if text_eq h.0 name then some h.1 else headers_of hs name

abbrev visit : List (Text × Text) → Request
visit headers = record {
  url = codes "https://a.example/blog/post";
  pathname = some (codes "/blog/post");
  header = headers_of headers;
}

abbrev backend : Text → Option Text → Option Text → Result AuthorizeResult
backend slug (some header) bearer =
    returned
      (answered (text_eq header (codes "PAY")) (some (codes "HASH")) (some (codes "RECEIPT")))
backend slug none bearer = returned (required none)

abbrev engine : Engine
engine = record {
  cfg = record { fail_mode = teaser; match_patterns = codes "/docs" ∷ codes "/blog/**" ∷ [] };
  client = record { authorize = backend; requirements = λ slug. returned (some (codes "{}" ∷ [])) };
  classify_deps = record {
    verify_web_bot_auth = λ req. returned false;
    verify_crawler_dns = some (λ ip ua. returned (text_eq ip (codes "66.249.66.1")));
  };
  encode = λ body. codes "BASE64";
  decode_uri_component = λ t. some t;
}

abbrev article : Response
article = record { status = 200; headers = []; body = other_body (codes "article") }

abbrev handler : Request → Result Response
handler req = returned article

abbrev seo : Option (Text → Result Text)
seo = some (λ slug. returned (codes "teaser"))

abbrev payer : Request
payer = visit ((codes "payment-signature", codes "PAY") ∷ [])

abbrev served : Result Response
served = returned (record article { headers = (codes "PAYMENT-RESPONSE", codes "RECEIPT") ∷ [] })

payer_passes : protect engine handler none payer ≡ returned (passed served)
unfolding gate_all
payer_passes = refl

abbrev spoofer : Request
spoofer = visit (
    (codes "user-agent", codes "Mozilla (compatible; Googlebot/2.1)")
    ∷ (codes "x-forwarded-for", codes "1.2.3.4, 66.249.66.1")
    ∷ [])

spoofer_is_bot :
    (classify engine.classify_deps spoofer >>= λ r. returned r.classification) ≡ returned ai_bot
unfolding gate_all
spoofer_is_bot = refl

-- An empty PAYMENT-SIGNATURE hides the X-PAYMENT that made the visitor count as paid.
empty_header_wins :
    payment_header (visit ((codes "payment-signature", []) ∷ (codes "x-payment", codes "PAY") ∷ []))
    ≡ some []
unfolding gate_all
empty_header_wins = refl

is_matched_iff_example : (is_matched payer (codes "/docs" ∷ codes "/blog/**" ∷ []) ≡ true) ↔ (
    (codes "/docs" ∷ codes "/blog/**" ∷ [] ≡ [])
    ⊎ Any (λ glob. Matches glob (codes "/blog/post")) (codes "/docs" ∷ codes "/blog/**" ∷ []))
is_matched_iff_example =
    is_matched_iff payer (codes "/blog/post") (codes "/docs" ∷ codes "/blog/**" ∷ []) refl

abbrev paid_visitor : ClassifyResult
paid_visitor = record {
  classification = paid;
  signals = codes "payment-header:PAYMENT-SIGNATURE" ∷ [];
}

payer_is_paid : classify engine.classify_deps payer ≡ returned paid_visitor
unfolding gate_all
payer_is_paid = refl

protect-Permitted_example : Permitted engine handler none payer served
protect-Permitted_example = protect-Permitted engine handler none payer served payer_passes

protect_serves_example :
    (out : Response) × (protect engine handler none payer ≡ returned (passed (returned out)))
    × HasReceipt engine handler none payer (codes "RECEIPT") article out
unfolding gate_all
protect_serves_example =
    protect_serves engine handler none payer paid_visitor (some (codes "HASH")) (codes "RECEIPT")
      article refl payer_is_paid refl refl refl
