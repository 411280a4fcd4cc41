-- ===== src/Gate/BotAuth/Keys/Laws.antt =====
-- Proofs about the resolution of keys.
use verivyx_monorepo.Prelude.{
  ℕ, ◌≡◌, refl, inl, inr, true, ◌&&◌, Option, none, some, List, [], ◌∷◌, Text, All, Option-cases,
  Bool-cases, arith,
}
use verivyx_monorepo.Prelude.Maps.{map_get, map_get-All, map_set-All}
use verivyx_monorepo.Gate.BotAuth.Keys.{
  Jwk, Crypto, Jwks, Surroundings, CacheEntry, Cache, is_ed25519, has_thumbprint, find_key,
  fetch_jwks, cached_key, keep_key, key_among, unless_cached, resolve_key,
}

module _ {Key : Type 0} (crypto : Crypto Key) where
  -- An Ed25519 key with that thumbprint.
  abbrev pub Names : Text → Jwk → Type 0
  Names keyid jwk = (is_ed25519 jwk ≡ true) × (has_thumbprint crypto keyid jwk ≡ true)

  abbrev pub IsNamed : Text × CacheEntry → Type 0
  IsNamed p = Names p.0 p.1.jwk

  pub find_key-Names :
      (keyid : Text) (jwks : List (Option Jwk)) (jwk : Jwk)
      → find_key crypto keyid jwks ≡ some jwk
      → Names keyid jwk
  unfolding find_key
  find_key-Names keyid [] jwk h = cc
  find_key-Names keyid (none ∷ jwks) jwk h = find_key-Names keyid jwks jwk h
  find_key-Names keyid (some j ∷ jwks) jwk h =
      elim (Bool-cases (is_ed25519 j && has_thumbprint crypto keyid j)) [
        | inl found ↦ first (rw found at h) found
        | inr other ↦ find_key-Names keyid jwks jwk (rw other at h)
      ]
    where
      first :
          some j ≡ some jwk
          → (is_ed25519 j && has_thumbprint crypto keyid j) ≡ true
          → Names keyid jwk
      first same found = ground arith

  cached_key-Names :
      (now : ℕ) (keyid : Text) (cache : Cache) (jwk : Jwk)
      → All IsNamed cache
      → cached_key crypto now (map_get cache keyid) ≡ some jwk
      → Names keyid jwk
  cached_key-Names now keyid cache jwk named h = elim (Option-cases (map_get cache keyid)) [
    | inl missing ↦ absurd (cc (rw missing at h))
    | inr (entry, found) ↦
        same_key entry (map_get-All IsNamed cache keyid entry named found) (rw found at h)
  ]
    where
      same_key :
          (entry : CacheEntry)
          → Names keyid entry.jwk
          → cached_key crypto now (some entry) ≡ some jwk
          → Names keyid jwk
      same_key entry names r = ground arith

  keep_key-Names :
      (keyid : Text) (now : ℕ) (cache : Cache) (found : Option Jwk)
      → ((jwk : Jwk) → found ≡ some jwk → Names keyid jwk)
      → All IsNamed cache
      → All IsNamed (keep_key crypto keyid now cache found).0
        × ((jwk : Jwk) → (keep_key crypto keyid now cache found).1 ≡ some jwk → Names keyid jwk)
  unfolding keep_key
  keep_key-Names keyid now cache none names named = (named, λ jwk h. cc)
  keep_key-Names keyid now cache (some jwk) names named =
      (map_set-All IsNamed cache keyid _ (names jwk refl) named, names)

  key_among-Names :
      (keyid : Text) (now : ℕ) (cache : Cache) (jwks : Jwks)
      → All IsNamed cache
      → All IsNamed (key_among crypto keyid now cache jwks).0
        × ((jwk : Jwk) → (key_among crypto keyid now cache jwks).1 ≡ some jwk → Names keyid jwk)
  unfolding key_among
  key_among-Names keyid now cache none named = (named, λ jwk h. cc)
  key_among-Names keyid now cache (some jwks) named =
      keep_key-Names keyid now cache (find_key crypto keyid jwks) (find_key-Names keyid jwks) named

  -- A cache whose keys have the thumbprints that they are kept under stays one, and the key that
  -- is found has the thumbprint that is asked for.
  pub resolve_key-Names :
      (env : Surroundings) (keyid : Text) (agent : Option Text) (cache : Cache)
      → All IsNamed cache
      → All IsNamed (resolve_key crypto env keyid agent cache).0
        × ((jwk : Jwk) → (resolve_key crypto env keyid agent cache).1 ≡ some jwk → Names keyid jwk)
  unfolding resolve_key unless_cached
  resolve_key-Names env keyid agent cache named =
      by_cache (cached_key crypto env.now_ms (map_get cache keyid))
        (λ jwk h. cached_key-Names env.now_ms keyid cache jwk named h)
    where
      by_cache :
          (o : Option Jwk)
          → ((jwk : Jwk) → o ≡ some jwk → Names keyid jwk)
          → All IsNamed (unless_cached crypto env keyid agent cache o).0
            × ((jwk : Jwk)
                → (unless_cached crypto env keyid agent cache o).1 ≡ some jwk
                → Names keyid jwk)
      by_cache (some jwk) names = (named, names)
      by_cache none names =
          key_among-Names keyid env.now_ms cache (fetch_jwks crypto env agent) named
