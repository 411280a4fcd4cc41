-- ===== src/Gate/Protect/Access.antt =====
-- Proofs about the wrapped handler as a whole.
use verivyx_monorepo.Prelude.{
  ◌≡◌, ◌⊎◌, refl, inl, inr, subst, true, false, Option, none, some, Text, codes, text_eq,
  Bool-cases,
}
use verivyx_monorepo.Gate.Types.{Request, Response, Result, returned, ◌>>=◌, returned-bind}
use verivyx_monorepo.Gate.Glob.{is_matched}
use verivyx_monorepo.Gate.Protect.Headers.{header_of, header_of-set_header, header_of-others}
use verivyx_monorepo.Gate.Detect.{lower_case, paid, ClassifyResult, classify}
use verivyx_monorepo.Gate.Decision.{GateDecision, make_decision}
use verivyx_monorepo.Gate.Protect.{
  answered, payment_header, decide, after_payment, granted, catch_unreachable, Engine, evaluate,
  derive_slug, attach_payment_response, preview_for, Reply, passed, refused, reply_for, protect,
}
use verivyx_monorepo.Gate.Protect.Laws.{Grant, Sealed, Decided, Decides-evaluate, returned_inj}

module _ (engine : Engine) (handler : Request → Result Response)
    (seo_preview : Option (Text → Result Text)) (req : Request) where
  abbrev pub slug_of : Text
  slug_of = derive_slug engine.decode_uri_component req.pathname

  -- The handler's own response where the route is not gated; else the handler ran under a grant,
  -- and its response has the grant's receipt attached.
  abbrev pub Permitted : Result Response → Type 0
  Permitted outcome =
      ((is_matched req engine.cfg.match_patterns ≡ false) × (outcome ≡ handler req))
      ⊎ ((receipt : Option Text) × Grant engine req slug_of (preview_for seo_preview slug_of)
            receipt
          × (outcome ≡ (handler req >>= λ res. returned (attach_payment_response res receipt))))

  abbrev Fits : Reply → Type 0
  Fits (passed outcome) = Permitted outcome
  Fits (refused response) = Sealed engine req slug_of (preview_for seo_preview slug_of) response

  reply_for-Fits :
      (d : GateDecision)
      → Decided engine req slug_of (preview_for seo_preview slug_of) d
      → Fits (reply_for handler req d)
  unfolding reply_for
  reply_for-Fits d (inl (allowed, grant)) = rw allowed (inr (d.payment_response, grant, refl))
  reply_for-Fits d (inr (allowed, sealed)) = rw allowed sealed

  protect-Fits :
      (reply : Reply) → protect engine handler seo_preview req ≡ returned reply → Fits reply
  unfolding protect
  protect-Fits reply h = elim (Bool-cases (is_matched req engine.cfg.match_patterns)) [
    | inl gated ↦
        (let (d, decided, same) =
            returned-bind (evaluate engine req slug_of (preview_for seo_preview slug_of)) _ reply
              (rw gated at h) in
          subst Fits (returned_inj (reply_for handler req d) reply same) (
            reply_for-Fits d
              (Decides-evaluate engine req slug_of (preview_for seo_preview slug_of) d decided)))
    | inr open_route ↦
        subst Fits (returned_inj (passed (handler req)) reply (rw open_route at h))
          (inl (open_route, refl))
  ]

  -- The application's handler runs only for a route that is not gated, or under a grant: the
  -- backend authorized the payment header of a request that is classified as paid, or the session
  -- of one that is classified as verified, or the backend was unreachable and the fail mode is
  -- open. What the caller gets is the handler's outcome, with the receipt of an authorized
  -- payment attached.
  pub protect-Permitted :
      (outcome : Result Response)
      → protect engine handler seo_preview req ≡ returned (passed outcome)
      → Permitted outcome
  protect-Permitted outcome h = protect-Fits (passed outcome) h

  -- The handler's response with the receipt in its header, and nothing else changed.
  pub record HasReceipt (receipt : Text) (res served : Response) : Type 0 where
    pub status : served.status ≡ res.status
    pub body : served.body ≡ res.body
    pub given : header_of (codes "PAYMENT-RESPONSE") served.headers ≡ some receipt
    pub others :
        (name : Text)
        → text_eq (lower_case (codes "PAYMENT-RESPONSE")) (lower_case name) ≡ false
        → header_of name served.headers ≡ header_of name res.headers

  attach_payment_response-HasReceipt :
      (receipt : Text) (res : Response)
      → HasReceipt receipt res (attach_payment_response res (some receipt))
  unfolding attach_payment_response
  attach_payment_response-HasReceipt receipt res = record {
    status = refl;
    body = refl;
    given = header_of-set_header (codes "PAYMENT-RESPONSE") receipt res.headers;
    others =
        λ name apart. header_of-others (codes "PAYMENT-RESPONSE") receipt name res.headers apart;
  }

  -- A payment that the backend authorizes with a receipt, on a gated route whose handler returns a
  -- response, is served: the caller gets that response with its status and its body, with the
  -- receipt as its PAYMENT-RESPONSE header, and with its other headers.
  pub protect_serves :
      (visitor : ClassifyResult) (transaction : Option Text) (receipt : Text) (res : Response)
      → is_matched req engine.cfg.match_patterns ≡ true
      → classify engine.classify_deps req ≡ returned visitor
      → visitor.classification ≡ paid
      → engine.client.authorize slug_of (payment_header req) none
        ≡ returned (answered true transaction (some receipt))
      → handler req ≡ returned res
      → (served : Response) × (protect engine handler seo_preview req
          ≡ returned (passed (returned served)))
        × HasReceipt receipt res served
  unfolding protect evaluate decide after_payment granted make_decision catch_unreachable reply_for
  protect_serves visitor transaction receipt res gated known class told answered_so = (
    attach_payment_response res (some receipt),
    rw (gated, known, class, told, answered_so),
    attach_payment_response-HasReceipt receipt res,
  )
