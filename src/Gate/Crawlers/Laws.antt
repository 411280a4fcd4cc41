-- ===== src/Gate/Crawlers/Laws.antt =====
-- Proofs about the verdicts on search crawlers, over every interleaving of calls.
use verivyx_monorepo.Prelude.{
  ℕ, ◌+◌, ◌≤◌, ◌<◌, ◌≡◌, ◌⊎◌, refl, sym, subst, inl, inr, Bool, true, Option, none, some, List,
  Text, All, Any, Option-cases, arith,
}
use verivyx_monorepo.Prelude.Maps.{map_get, map_get-All}
use verivyx_monorepo.Gate.Types.{Result, returned, backend_unreachable, failed}
use verivyx_monorepo.Gate.Crawlers.{
  CacheEntry, Cache, RangeReply, network_error, not_ok, no_json, no_prefixes, prefixes, Deps,
  cached_ranges, ranges_of, store_reply, any_match, claimed_url, matched, RangeCall, load_ranges,
  verify_claim, verify_crawler_ip,
}
use verivyx_monorepo.Gate.Crawlers.Steps.{
  World, published_by, after_reply, after_reply-cache, CallStep, Reaches, IsPublished, Supports,
  Any-weaken, Reaches-published, unclaimed, answered, arrived,
}

cached_ranges_inv :
    (deps : Deps) (cache : Cache) (url : Text) (now : ℕ) (cidrs : List Text)
    → cached_ranges deps cache url now ≡ some cidrs
    → (entry : CacheEntry) × (map_get cache url ≡ some entry)
      × (now ≤ entry.fetched_at + deps.cache_ttl_ms)
      × (entry.cidrs ≡ cidrs)
unfolding cached_ranges
cached_ranges_inv deps cache url now cidrs h = elim (Option-cases (map_get cache url)) [
  | inl missing ↦ absurd (cc (rw missing at h))
  | inr (entry, found) ↦ let fresh = rw found at h in (entry, found, ground arith, ground arith)
]

entry-Supports :
    (deps : Deps) (w : World) (ip url : Text) (now : ℕ) (entry : CacheEntry)
    → All (IsPublished w.published) w.cache
    → map_get w.cache url ≡ some entry
    → now ≤ entry.fetched_at + deps.cache_ttl_ms
    → any_match ip entry.cidrs ≡ true
    → Any (Supports deps ip url now) w.published
entry-Supports deps w ip url now entry kept found on_time hit =
    Any-weaken w.published (λ q h. (h.0, rw h.2 on_time, rw h.1 hit))
      (map_get-All (IsPublished w.published) w.cache url entry kept found)

arrived-Supports :
    (deps : Deps) (w : World) (ip url : Text) (now : ℕ) (reply : RangeReply)
    → matched ip (ranges_of reply) ≡ true
    → Any (Supports deps ip url now) (after_reply w url now reply).published
unfolding ranges_of any_match
arrived-Supports deps w ip url now (prefixes entries) hit =
    from_ranges (ranges_of (prefixes entries)) hit
  where
    from_ranges :
        (r : Result (List Text))
        → matched ip r ≡ true
        → Any (Supports deps ip url now) (published_by url now r w.published)
    from_ranges (returned cidrs) h = inl (refl, omega arith, h)
    from_ranges backend_unreachable h = cc
    from_ranges failed h = cc
arrived-Supports deps w ip url now network_error hit = cc
arrived-Supports deps w ip url now not_ok hit = cc
arrived-Supports deps w ip url now no_json hit = cc
arrived-Supports deps w ip url now no_prefixes hit = cc

-- However the calls of a verifier overlap, it takes an address for a search crawler's only if the
-- agent claims a list, and a list was read from a reply of that url, not longer ago
-- than the limit, with the address in one of its ranges.
pub crawler-published :
    (deps : Deps) (w v : World) (ip ua : Text) (now : ℕ)
    → Reaches deps w
    → CallStep deps ip ua now w v true
    → (url : Text) × (claimed_url deps ua ≡ some url) × Any (Supports deps ip url now) v.published
crawler-published deps w v ip ua now reached taken = by_step v true refl taken
  where
    by_step :
        (u : World) (verdict : Bool)
        → verdict ≡ true
        → CallStep deps ip ua now w u verdict
        → (url : Text) × (claimed_url deps ua ≡ some url)
          × Any (Supports deps ip url now) u.published
    by_step _ _ positive (unclaimed _ none_claimed) = cc
    by_step _ _ positive (answered _ url entry claimed found fresh) = (
      url,
      claimed,
      entry-Supports deps w ip url now entry (Reaches-published deps w reached) found fresh
          positive,
    )
    by_step _ _ positive (arrived _ url reply claimed) =
        (url, claimed, arrived-Supports deps w ip url now reply positive)

-- No entry of the url is young enough.
abbrev pub AllStale : Deps → Cache → Text → ℕ → Type 0
AllStale deps cache url now =
    (entry : CacheEntry)
    → map_get cache url ≡ some entry
    → entry.fetched_at + deps.cache_ttl_ms < now

cached_ranges_stale :
    (deps : Deps) (cache : Cache) (url : Text) (now : ℕ)
    → cached_ranges deps cache url now ≡ none
    → AllStale deps cache url now
unfolding cached_ranges
cached_ranges_stale deps cache url now h entry found = let stale = rw found at h in ground arith

-- What a call at its surroundings is among the steps: it answers at the time that it starts at,
-- and changes nothing; or no list of the claimed url is fresh at that time, and it reads the reply
-- to its own fetch at the time that this has come.
abbrev pub IsStep : Deps → RangeCall → Text → Text → World → World → Bool → Type 0
IsStep deps env ip ua w v verdict =
    ((v ≡ w) × CallStep deps ip ua env.now w v verdict)
    ⊎ ((url : Text) × (claimed_url deps ua ≡ some url)
        × AllStale deps w.cache url env.now
        × (v ≡ after_reply w url env.now_after (env.fetch url))
        × CallStep deps ip ua env.now_after w v verdict)

-- A call that no other call interrupts takes one of the steps, with its cache and its verdict: at
-- the time that it starts at, leaving everything as it was; or, if no list of the claimed url is
-- fresh then, with the reply to its own fetch at the time that this has come.
pub verify_crawler_ip-CallStep :
    (deps : Deps) (w : World) (env : RangeCall) (ip ua : Text)
    → (v : World) × (v.cache ≡ (verify_crawler_ip deps w.cache env ip ua).0)
      × IsStep deps env ip ua w v (verify_crawler_ip deps w.cache env ip ua).1
unfolding verify_crawler_ip load_ranges store_reply any_match matched
verify_crawler_ip-CallStep deps w env ip ua = by_claim (claimed_url deps ua) refl
  where
    by_cache :
        (url : Text) (o : Option (List Text))
        → claimed_url deps ua ≡ some url
        → cached_ranges deps w.cache url env.now ≡ o
        → (v : World) × (v.cache ≡ (load_ranges w.cache url env o).0)
          × IsStep deps env ip ua w v (matched ip (load_ranges w.cache url env o).1)
    by_cache url (some cidrs) claimed cached =
        (let (entry, found, fresh, same) =
            cached_ranges_inv deps w.cache url env.now cidrs cached in
          (
            w,
            refl,
            inl (
              refl,
              subst (λ c. CallStep deps ip ua env.now w w (any_match ip c)) same
                  (answered w url entry claimed found fresh),
            ),
          ))
    by_cache url none claimed cached = (
      after_reply w url env.now_after (env.fetch url),
      after_reply-cache w url env.now_after (env.fetch url),
      inr (
        url,
        claimed,
        cached_ranges_stale deps w.cache url env.now cached,
        refl,
        arrived w url (env.fetch url) claimed,
      ),
    )

    by_claim :
        (o : Option Text)
        → claimed_url deps ua ≡ o
        → (v : World) × (v.cache ≡ (verify_claim deps w.cache env ip o).0)
          × IsStep deps env ip ua w v (verify_claim deps w.cache env ip o).1
    by_claim none claimed = (w, refl, inl (refl, unclaimed w claimed))
    by_claim (some url) claimed = by_cache url (cached_ranges deps w.cache url env.now) claimed refl

-- The reply to the fetch of this url has the address in one of its ranges.
abbrev pub IsFetched : RangeCall → Text → Text → Type 0
IsFetched env ip url =
    (cidrs : List Text) × (ranges_of (env.fetch url) ≡ returned cidrs) × (any_match ip cidrs ≡ true)

matched-IsFetched :
    (env : RangeCall) (ip url : Text) (r : Result (List Text))
    → ranges_of (env.fetch url) ≡ r
    → matched ip r ≡ true
    → IsFetched env ip url
unfolding any_match matched
matched-IsFetched env ip url (returned cidrs) e h = (cidrs, e, h)
matched-IsFetched env ip url backend_unreachable e h = cc
matched-IsFetched env ip url failed e h = cc

-- A list behind a positive verdict: one read before that is fresh when the call starts, or the
-- reply to the call's fetch.
pub verify_crawler_ip-current :
    (deps : Deps) (w : World) (env : RangeCall) (ip ua : Text)
    → Reaches deps w
    → (verify_crawler_ip deps w.cache env ip ua).1 ≡ true
    → (url : Text) × (claimed_url deps ua ≡ some url)
      × (Any (Supports deps ip url env.now) w.published ⊎ IsFetched env ip url)
unfolding verify_crawler_ip load_ranges any_match
verify_crawler_ip-current deps w env ip ua reached positive =
    by_claim (claimed_url deps ua) refl positive
  where
    by_cache :
        (url : Text) (o : Option (List Text))
        → cached_ranges deps w.cache url env.now ≡ o
        → matched ip (load_ranges w.cache url env o).1 ≡ true
        → Any (Supports deps ip url env.now) w.published ⊎ IsFetched env ip url
    by_cache url (some cidrs) cached h =
        (let (entry, found, fresh, same) =
            cached_ranges_inv deps w.cache url env.now cidrs cached in
          inl (
            entry-Supports deps w ip url env.now entry (Reaches-published deps w reached) found
              fresh (subst (λ c. any_match ip c ≡ true) (sym same) h)))
    by_cache url none cached h =
        inr (matched-IsFetched env ip url (ranges_of (env.fetch url)) refl h)

    by_claim :
        (o : Option Text)
        → claimed_url deps ua ≡ o
        → (verify_claim deps w.cache env ip o).1 ≡ true
        → (url : Text) × (claimed_url deps ua ≡ some url)
          × (Any (Supports deps ip url env.now) w.published ⊎ IsFetched env ip url)
    by_claim none claimed h = absurd (cc h)
    by_claim (some url) claimed h =
        (url, claimed, by_cache url (cached_ranges deps w.cache url env.now) refl h)
