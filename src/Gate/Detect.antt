-- ===== src/Gate/Detect.antt =====
-- detect.ts: who a visitor is, by the first signal that is there.
pub mod Laws
use verivyx_monorepo.Prelude.{
  ℕ, ◌+◌, Bool, true, false, not, ◌&&◌, ◌||◌, Option, none, some, or_default, List, [], ◌∷◌, ◌++◌,
  Text, codes, starts_with, includes, leb, ◌==◌, map, find, if◌then◌else◌,
}
use verivyx_monorepo.Prelude.Parse.{split, trim, to_lower, is_space}
use verivyx_monorepo.Gate.Types.{Request, Result, returned, backend_unreachable, failed, ◌>>=◌}

pub data Classification : Type 0 where
  paid verified signed_agent ai_bot crawler human unknown : Classification

pub record ClassifyDeps : Type 0 where
  pub verify_web_bot_auth : Request → Result Bool
  pub verify_crawler_dns : Option (Text → Text → Result Bool)

pub record ClassifyResult : Type 0 where
  pub classification : Classification
  pub signals : List Text

abbrev pub ai_bot_needles : List Text
ai_bot_needles =
    codes "gptbot"
    ∷ codes "oai-search"
    ∷ codes "openai"
    ∷ codes "perplexity"
    ∷ codes "anthropic"
    ∷ codes "claudebot"
    ∷ codes "google-extended"
    ∷ codes "googleother"
    ∷ codes "bytespider"
    ∷ codes "amazonbot"
    ∷ codes "ccbot"
    ∷ codes "headless"
    ∷ codes "puppeteer"
    ∷ codes "playwright"
    ∷ codes "selenium"
    ∷ codes "phantomjs"
    ∷ codes "python-requests"
    ∷ codes "python-urllib"
    ∷ codes "go-http-client"
    ∷ codes "curl/"
    ∷ codes "wget/"
    ∷ codes "libwww-perl"
    ∷ codes "scrapy"
    ∷ codes "httpclient"
    ∷ codes "apache-httpclient"
    ∷ codes "node-fetch"
    ∷ codes "axios"
    ∷ []

-- A needle is its own tag.
abbrev pub crawler_needles : List Text
crawler_needles = codes "googlebot" ∷ codes "bingbot" ∷ codes "slurp" ∷ []

abbrev is_set : Option Text → Bool
is_set none = false
is_set (some []) = false
is_set (some (c ∷ t)) = true

abbrev first_of : List Text → Text
first_of [] = []
first_of (w ∷ ws) = trim w

abbrev forwarded_ip : Option Text → Text
forwarded_ip none = []
forwarded_ip (some []) = []
forwarded_ip (some (c ∷ t)) = first_of (split b',' (c ∷ t))

abbrev ip_of : Option Text → Option Text → Text
ip_of (some (c ∷ t)) forwarded = trim (c ∷ t)
ip_of _ forwarded = forwarded_ip forwarded

unfoldable pub extract_ip : Request → Text
extract_ip req = ip_of (req.header (codes "x-real-ip")) (req.header (codes "x-forwarded-for"))

-- `toLowerCase` on the code units of a header, which are at most 255.
unfoldable pub lower_case : Text → Text
lower_case t =
    map (λ c. if leb 0xc0 c && leb c 0xde && not (c == 0xd7) then c + 32 else to_lower c) t

-- Spaces, and then the name with `=`.
unfoldable pub spaces_then_session : Text → Bool
spaces_then_session [] = false
spaces_then_session (c ∷ t) =
    starts_with (c ∷ t) (codes "vx_session=") || (is_space c && spaces_then_session t)

unfoldable pub session_after_semicolon : Text → Bool
unfolding spaces_then_session
session_after_semicolon [] = false
session_after_semicolon (c ∷ t) =
    ((c == b';') && spaces_then_session t) || session_after_semicolon t

-- `/(^|;\s*)vx_session=/`.
unfoldable pub has_session_cookie : Text → Bool
unfolding session_after_semicolon
has_session_cookie cookie =
    starts_with cookie (codes "vx_session=") || session_after_semicolon cookie

unfoldable pub has_payment_header : Request → Bool
has_payment_header req =
    is_set (req.header (codes "payment-signature")) || is_set (req.header (codes "x-payment"))

unfoldable pub has_bearer : Request → Bool
unfolding lower_case
has_bearer req =
    starts_with (lower_case (or_default (req.header (codes "authorization")) [])) (codes "bearer ")

unfoldable pub has_session : Request → Bool
unfolding has_session_cookie has_bearer
has_session req = has_session_cookie (or_default (req.header (codes "cookie")) []) || has_bearer req

abbrev pub user_agent : Request → Text
user_agent req = or_default (req.header (codes "user-agent")) []

abbrev result : Classification → List Text → Result ClassifyResult
result c tags = returned (record { classification = c; signals = tags })

abbrev pub paid_signal : Request → Text
paid_signal req =
    if is_set (req.header (codes "payment-signature"))
    then codes "payment-header:PAYMENT-SIGNATURE"
    else codes "payment-header:X-PAYMENT"

abbrev pub session_signal : Request → Text
unfolding has_session_cookie
session_signal req =
    if has_session_cookie (or_default (req.header (codes "cookie")) [])
    then codes "session:cookie"
    else codes "session:bearer"

abbrev pub verify_crawler : Option (Text → Text → Result Bool) → Request → Result Bool
verify_crawler none req = returned false
verify_crawler (some verify) req = verify (extract_ip req) (user_agent req)

abbrev pub crawler_result : Text → Bool → Result ClassifyResult
crawler_result needle true = result crawler ((codes "ua:" ++ needle) ∷ codes "dns:verified" ∷ [])
crawler_result needle false =
    result ai_bot ((codes "ua:" ++ needle) ∷ codes "dns:unverified→ai-bot" ∷ [])

abbrev pub ai_result : Option Text → Result ClassifyResult
ai_result (some needle) = result ai_bot ((codes "ua:" ++ needle) ∷ [])
ai_result none = result human (codes "ua:human" ∷ [])

-- `ua` is the user agent in lower case.
unfoldable pub by_ai_needle : Text → Result ClassifyResult
by_ai_needle ua = ai_result (find (includes ua) ai_bot_needles)

abbrev pub by_crawler_needle : ClassifyDeps → Request → Text → Option Text → Result ClassifyResult
by_crawler_needle deps req ua (some needle) =
    verify_crawler deps.verify_crawler_dns req >>= crawler_result needle
by_crawler_needle deps req ua none = by_ai_needle ua

unfoldable pub by_user_agent : ClassifyDeps → Request → Text → Result ClassifyResult
unfolding by_ai_needle
by_user_agent deps req ua = by_crawler_needle deps req ua (find (includes ua) crawler_needles)

abbrev pub unless_signed : ClassifyDeps → Request → Bool → Result ClassifyResult
unless_signed deps req true = result signed_agent (codes "webbotauth:signed" ∷ [])
unless_signed deps req false = by_user_agent deps req (lower_case (user_agent req))

abbrev pub unless_session : ClassifyDeps → Request → Bool → Result ClassifyResult
unless_session deps req true = result verified (session_signal req ∷ [])
unless_session deps req false = deps.verify_web_bot_auth req >>= unless_signed deps req

abbrev pub unless_paid : ClassifyDeps → Request → Bool → Result ClassifyResult
unless_paid deps req true = result paid (paid_signal req ∷ [])
unless_paid deps req false = unless_session deps req (has_session req)

unfoldable pub classify : ClassifyDeps → Request → Result ClassifyResult
classify deps req = unless_paid deps req (has_payment_header req)
