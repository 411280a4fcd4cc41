-- ===== src/Gate/Decision.antt =====
-- decision.ts: the decision on a request, its response, and the fail modes.
use verivyx_monorepo.Prelude.{
  Bool, true, false, Option, none, some, or_default, List, [], ◌∷◌, Text, codes,
}
use verivyx_monorepo.Gate.Types.{
  PaymentRequiredBody, no_body, service_unavailable, html, payment_required, Response, FailMode,
  teaser, open_mode, closed, ResolvedConfig, Result, returned,
}

pub data GateReason : Type 0 where
  paid verified bot_unpaid crawler human_unverified error : GateReason

-- The optional fields that the gate sets; `response` is what `response()` builds.
pub record GateDecision : Type 0 where
  pub allowed : Bool
  pub reason : GateReason
  pub payment_requirements : Option (List Text)
  pub transaction : Option Text
  pub payment_response : Option Text
  pub signals : List Text
  pub response : Response

pub record DecisionInput : Type 0 where
  pub reason : GateReason
  pub payment_requirements : Option (List Text)
  pub preview_html : Option Text
  pub prebuilt_402 : Option PaymentRequiredBody
  pub signals : List Text

-- `encode` is the base64 of a body's JSON, for the PAYMENT-REQUIRED header.
abbrev pub fallback_402 : List Text → PaymentRequiredBody
fallback_402 requirements = record {
  error = codes "payment_required";
  url = [];
  mime_type = codes "text/html";
  accepts = requirements;
}

unfoldable pub build_402 :
    (PaymentRequiredBody → Text) → Option PaymentRequiredBody → List Text → Response
build_402 encode prebuilt requirements =
    let body = or_default prebuilt (fallback_402 requirements) in
    record {
      status = 402;
      headers =
          (codes "Content-Type", codes "application/json")
          ∷ (codes "PAYMENT-REQUIRED", encode body)
          ∷ [];
      body = payment_required body;
    }

abbrev pub build_503 : Response
build_503 = record {
  status = 503;
  headers = (codes "Content-Type", codes "application/json") ∷ [];
  body = service_unavailable;
}

abbrev pub build_200_preview : Text → Response
build_200_preview page = record {
  status = 200;
  headers = (codes "Content-Type", codes "text/html; charset=utf-8") ∷ [];
  body = html page;
}

abbrev pub build_200_empty : Response
build_200_empty = record { status = 200; headers = []; body = no_body }

-- The preview if there is one, and else a 402, so that no content leaks.
abbrev pub preview_or_402 :
    (PaymentRequiredBody → Text) → Option Text → Option PaymentRequiredBody → List Text → Response
preview_or_402 encode (some page) prebuilt requirements = build_200_preview page
preview_or_402 encode none prebuilt requirements = build_402 encode prebuilt requirements

unfoldable pub build_error_response :
    (PaymentRequiredBody → Text) → FailMode → Option Text → Response
build_error_response encode closed preview = build_503
build_error_response encode open_mode preview = build_200_empty
build_error_response encode teaser preview = preview_or_402 encode preview none []

abbrev pub requirements_of : DecisionInput → List Text
requirements_of input = or_default input.payment_requirements []

unfoldable pub response_for :
    (PaymentRequiredBody → Text) → FailMode → DecisionInput → GateReason → Response
response_for encode mode input paid = build_200_empty
response_for encode mode input verified = build_200_empty
response_for encode mode input bot_unpaid =
    build_402 encode input.prebuilt_402 (requirements_of input)
response_for encode mode input crawler =
    preview_or_402 encode input.preview_html input.prebuilt_402 (requirements_of input)
response_for encode mode input human_unverified =
    preview_or_402 encode input.preview_html input.prebuilt_402 (requirements_of input)
response_for encode mode input error = build_error_response encode mode input.preview_html

unfoldable pub build_response_fn :
    (PaymentRequiredBody → Text) → FailMode → DecisionInput → Response
unfolding response_for
build_response_fn encode mode input = response_for encode mode input input.reason

abbrev pub is_granted : GateReason → Bool
is_granted paid = true
is_granted verified = true
is_granted _ = false

unfoldable pub make_decision :
    (PaymentRequiredBody → Text) → ResolvedConfig → DecisionInput → GateDecision
unfolding build_response_fn
make_decision encode cfg input = record {
  allowed = is_granted input.reason;
  reason = input.reason;
  payment_requirements = input.payment_requirements;
  transaction = none;
  payment_response = none;
  signals = input.signals;
  response = build_response_fn encode cfg.fail_mode input;
}

unfoldable pub on_error :
    (PaymentRequiredBody → Text) → FailMode → Bool → Option Text → GateDecision
unfolding build_error_response
on_error encode mode allowed preview = record {
  allowed = allowed;
  reason = error;
  payment_requirements = none;
  transaction = none;
  payment_response = none;
  signals = [];
  response = build_error_response encode mode preview;
}

-- A builder that throws counts as no preview.
abbrev pub preview_of : Option (Result Text) → Option Text
preview_of (some (returned page)) = some page
preview_of _ = none

-- `preview` is what the preview builder does when it is called, if there is one.
unfoldable pub apply_fail_mode :
    (PaymentRequiredBody → Text) → FailMode → Option (Result Text) → GateDecision
unfolding on_error
apply_fail_mode encode teaser preview = on_error encode teaser false (preview_of preview)
apply_fail_mode encode open_mode preview = on_error encode open_mode true none
apply_fail_mode encode closed preview = on_error encode closed false none
