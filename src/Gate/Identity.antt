-- ===== src/Gate/Identity.antt =====
-- The classifier of detect.ts on the verifiers of webbotauth.ts and crawlerverify.ts.
mod Tests
use verivyx_monorepo.Prelude.{
  ℕ, ◌≡◌, ◌⊎◌, refl, sym, ap, ◌∙◌, Bool, true, false, Option, none, some, List, [], ◌∷◌, Text, All,
  Any,
}
use verivyx_monorepo.Gate.Types.{Request, Result, returned}
use verivyx_monorepo.Gate.Detect.{
  Classification, paid, verified, signed_agent, ai_bot, crawler, human, unknown, ClassifyDeps,
  ClassifyResult, classify, extract_ip, user_agent, verify_crawler,
}
use verivyx_monorepo.Gate.Detect.Laws.{Evidence, classify-Evidence}
use verivyx_monorepo.Gate.BotAuth.Fields.{Builtins}
use verivyx_monorepo.Gate.BotAuth.Keys.{Crypto, Surroundings, Cache}
use verivyx_monorepo.Gate.BotAuth.Keys.Laws.{IsNamed}
use verivyx_monorepo.Gate.BotAuth.Verify.{verify_web_bot_auth}
use verivyx_monorepo.Gate.BotAuth.Verify.Laws.{Accepted, verify_web_bot_auth-Accepted}
use verivyx_monorepo.Gate.Crawlers.{Deps, RangeCall, claimed_url, verify_crawler_ip}
use verivyx_monorepo.Gate.Crawlers.Steps.{World, Supports, Reaches}
use verivyx_monorepo.Gate.Crawlers.Laws.{IsFetched, verify_crawler_ip-current}

-- The verifiers at one request: what they see, and their caches.
pub record Verifiers (Key : Type 0) : Type 0 where
  pub crypto : Crypto Key
  pub builtins : Builtins
  pub bot_surroundings : Text → Surroundings
  pub now_seconds : ℕ
  pub keys : Cache
  pub crawler_deps : Deps
  pub ranges : World
  pub range_call : RangeCall

module _ {Key : Type 0} where
  -- The dependencies of `classify` that an adapter makes when the host overrides none.
  abbrev pub deps_of : Verifiers Key → ClassifyDeps
  deps_of v = record {
    verify_web_bot_auth = λ req.
        returned
          (verify_web_bot_auth v.crypto v.builtins v.bot_surroundings v.now_seconds req v.keys).1;
    verify_crawler_dns =
        some (λ ip ua.
          returned (verify_crawler_ip v.crawler_deps v.ranges.cache v.range_call ip ua).1);
  }

  -- A list of the claimed crawler with the visitor's address: one that was read before and is not
  -- older than the limit when the call starts, or the one that the call fetches.
  pub record IsCrawler (v : Verifiers Key) (req : Request) : Type 0 where
    pub url : Text
    pub claimed : claimed_url v.crawler_deps (user_agent req) ≡ some url
    pub support :
        Any (Supports v.crawler_deps (extract_ip req) url v.range_call.now) v.ranges.published
        ⊎ IsFetched v.range_call (extract_ip req) url

  -- What stands behind a class that grants something.
  abbrev pub Grounds : Verifiers Key → Request → Classification → Type 0
  Grounds v req signed_agent = Accepted v.crypto v.builtins v.now_seconds req
  Grounds v req crawler = IsCrawler v req
  Grounds v req _ = Unit

  IsCrawler-Grounds :
      (v : Verifiers Key) (req : Request)
      → Reaches v.crawler_deps v.ranges
      → (verify_crawler_ip v.crawler_deps v.ranges.cache v.range_call
          (extract_ip req)
          (user_agent req)).1
        ≡ true
      → IsCrawler v req
  IsCrawler-Grounds v req reached positive =
      let (url, claimed, support) =
        verify_crawler_ip-current v.crawler_deps v.ranges v.range_call (extract_ip req)
          (user_agent req) reached positive in
      record { url = url; claimed = claimed; support = support }

  Evidence-Grounds :
      (v : Verifiers Key) (req : Request) (c : Classification)
      → All (IsNamed v.crypto) v.keys
      → Reaches v.crawler_deps v.ranges
      → Evidence (deps_of v) req c
      → Grounds v req c
  Evidence-Grounds v req paid named reached e = tt
  Evidence-Grounds v req verified named reached e = tt
  Evidence-Grounds v req signed_agent named reached (unpaid, sessionless, told) =
      verify_web_bot_auth-Accepted v.crypto v.builtins v.bot_surroundings v.now_seconds req v.keys
        named cc
  Evidence-Grounds v req ai_bot named reached e = tt
  Evidence-Grounds v req crawler named reached (unsigned, claims, told) =
      IsCrawler-Grounds v req reached cc
  Evidence-Grounds v req human named reached e = tt
  Evidence-Grounds v req unknown named reached e = tt

  -- With the two verifiers of the SDK on caches that calls have left, a visitor is a signed agent
  -- only with a signature that the bot verifier accepts, and a search crawler only with an address
  -- in a list of the crawler that it claims to be, which was read not longer ago than the limit
  -- when the call starts, or which the call itself fetches.
  pub classify-Grounds :
      (v : Verifiers Key) (req : Request) (r : ClassifyResult)
      → All (IsNamed v.crypto) v.keys
      → Reaches v.crawler_deps v.ranges
      → classify (deps_of v) req ≡ returned r
      → Grounds v req r.classification
  classify-Grounds v req r named reached h =
      Evidence-Grounds v req r.classification named reached (classify-Evidence (deps_of v) req r h)
