-- ===== src/Gate/Crawlers/Steps.antt =====
-- The steps that overlapping calls of the verifier take (crawlerverify.ts), and the lists behind the
-- cache that they reach.
use verivyx_monorepo.Prelude.{
  ℕ, ◌+◌, ◌≤◌, ◌≡◌, refl, inl, inr, Bool, true, false, Option, none, some, List, [], ◌∷◌, Text, All,
  Any,
}
use verivyx_monorepo.Prelude.Maps.{map_get, map_set-All}
use verivyx_monorepo.Gate.Types.{Result, returned, backend_unreachable, failed}
use verivyx_monorepo.Gate.Crawlers.{
  CacheEntry, Cache, Prefix, RangeReply, network_error, not_ok, no_json, no_prefixes, prefixes,
  Deps, ranges_of, store_reply, any_match, claimed_url, matched, stored,
}

-- A list that was read from a reply.
pub record Publication : Type 0 where
  pub url : Text
  pub cidrs : List Text
  pub at_time : ℕ

-- The cache, and all lists read so far.
pub record World : Type 0 where
  pub cache : Cache
  pub published : List Publication

abbrev pub published_by : Text → ℕ → Result (List Text) → List Publication → List Publication
published_by url now (returned cidrs) ps = record { url = url; cidrs = cidrs; at_time = now } ∷ ps
published_by url now _ ps = ps

abbrev pub after_reply : World → Text → ℕ → RangeReply → World
after_reply w url now (prefixes entries) = record {
  cache = store_reply w.cache url now (prefixes entries);
  published = published_by url now (ranges_of (prefixes entries)) w.published;
}
after_reply w url now reply = record {
  cache = store_reply w.cache url now reply;
  published = w.published;
}

pub after_reply-cache :
    (w : World) (url : Text) (now : ℕ) (reply : RangeReply)
    → (after_reply w url now reply).cache ≡ store_reply w.cache url now reply
after_reply-cache w url now (prefixes entries) = refl
after_reply-cache w url now network_error = refl
after_reply-cache w url now not_ok = refl
after_reply-cache w url now no_json = refl
after_reply-cache w url now no_prefixes = refl

-- What one of any number of overlapping calls does without interruption, and its verdict: it
-- answers from an entry of the cache that is not too old, or, when the reply to its fetch has come, from that; or it
-- claims no list.
pub data CallStep (deps : Deps) (ip ua : Text) (now : ℕ) : World → World → Bool → Type 0 where
  unclaimed : (w : World) → claimed_url deps ua ≡ none → CallStep deps ip ua now w w false
  answered :
      (w : World) (url : Text) (entry : CacheEntry)
      → claimed_url deps ua ≡ some url
      → map_get w.cache url ≡ some entry
      → now ≤ entry.fetched_at + deps.cache_ttl_ms
      → CallStep deps ip ua now w w (any_match ip entry.cidrs)
  arrived :
      (w : World) (url : Text) (reply : RangeReply)
      → claimed_url deps ua ≡ some url
      → CallStep deps ip ua now w (after_reply w url now reply) (matched ip (ranges_of reply))

pub data Reaches (deps : Deps) : World → Type 0 where
  start : Reaches deps (record { cache = []; published = [] })
  step :
      (w v : World) (ip ua : Text) (now : ℕ) (verdict : Bool)
      → Reaches deps w
      → CallStep deps ip ua now w v verdict
      → Reaches deps v

-- Of this url, and with the entry's list and time.
abbrev pub IsPublished : List Publication → Text × CacheEntry → Type 0
IsPublished ps p =
    Any (λ q. (q.url ≡ p.0) × (q.cidrs ≡ p.1.cidrs) × (q.at_time ≡ p.1.fetched_at)) ps

-- A list of that url, not older than the limit, with the address in one of its ranges.
abbrev pub Supports : Deps → Text → Text → ℕ → Publication → Type 0
Supports deps ip url now p =
    (p.url ≡ url) × (now ≤ p.at_time + deps.cache_ttl_ms) × (any_match ip p.cidrs ≡ true)

pub Any-weaken :
    {A : Type 0} {P Q : A → Type 0} (xs : List A) → ((x : A) → P x → Q x) → Any P xs → Any Q xs
Any-weaken [] f h = h
Any-weaken (x ∷ xs) f (inl p) = inl (f x p)
Any-weaken (x ∷ xs) f (inr r) = inr (Any-weaken xs f r)

All-weaken :
    {A : Type 0} {P Q : A → Type 0} (xs : List A) → ((x : A) → P x → Q x) → All P xs → All Q xs
All-weaken [] f h = h
All-weaken (x ∷ xs) f (p, r) = (f x p, All-weaken xs f r)

store_reply-published :
    (w : World) (url : Text) (now : ℕ) (entries : List (Option Prefix)) (r : Result (List Text))
    → All (IsPublished w.published) w.cache
    → All (IsPublished (published_by url now r w.published)) (stored w.cache url now r)
unfolding stored
store_reply-published w url now entries (returned cidrs) h =
    map_set-All (IsPublished (published_by url now (returned cidrs) w.published)) w.cache url
      (record { cidrs = cidrs; fetched_at = now }) (inl (refl, refl, refl))
      (All-weaken w.cache (λ p q. inr q) h)
store_reply-published w url now entries backend_unreachable h = h
store_reply-published w url now entries failed h = h

after_reply-published :
    (w : World) (url : Text) (now : ℕ) (reply : RangeReply)
    → All (IsPublished w.published) w.cache
    → All (IsPublished (after_reply w url now reply).published) (after_reply w url now reply).cache
unfolding store_reply
after_reply-published w url now (prefixes entries) h =
    store_reply-published w url now entries (ranges_of (prefixes entries)) h
after_reply-published w url now network_error h = h
after_reply-published w url now not_ok h = h
after_reply-published w url now no_json h = h
after_reply-published w url now no_prefixes h = h

Step-published :
    (deps : Deps) (ip ua : Text) (now : ℕ) (w v : World) (verdict : Bool)
    → CallStep deps ip ua now w v verdict
    → All (IsPublished w.published) w.cache
    → All (IsPublished v.published) v.cache
Step-published deps ip ua now w _ _ (unclaimed _ none_claimed) h = h
Step-published deps ip ua now w _ _ (answered _ url entry claimed found fresh) h = h
Step-published deps ip ua now w _ _ (arrived _ url reply claimed) h =
    after_reply-published w url now reply h

pub Reaches-published :
    (deps : Deps) (w : World) → Reaches deps w → All (IsPublished w.published) w.cache
Reaches-published deps _ start = tt
Reaches-published deps _ (step w v ip ua now verdict before taken) =
    Step-published deps ip ua now w v verdict taken (Reaches-published deps w before)
