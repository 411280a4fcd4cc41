-- ===== src/Gate/BotAuth/Keys.antt =====
-- webbotauth.ts: the key that a signature names, from the directory of its agent or the cache.
pub mod Laws
use verivyx_monorepo.Prelude.{
  ℕ, zero, suc, ◌+◌, ◌*◌, Bool, true, false, not, ◌&&◌, ◌||◌, Option, none, some, or_default, List,
  [], ◌∷◌, ◌++◌, Text, codes, text_eq, leb, ltb, ◌==◌, map, if◌then◌else◌,
}
use verivyx_monorepo.Prelude.Parse.{trim}
use verivyx_monorepo.Prelude.Maps.{map_get, map_set}

-- The members that the code reads, and the JSON of the others.
pub record Jwk : Type 0 where
  pub kty : Option Text
  pub crv : Option Text
  pub x : Option Text
  pub others : Text

pub record Url : Type 0 where
  pub host : Text
  pub href : Text

-- WebCrypto and what JavaScript gives: SHA-256 of the UTF-8 of a text, Ed25519, `btoa`,
-- `JSON.stringify` of a text, `new URL(text)` and `new URL(path, base).href`; `none` if it throws.
pub record Crypto (Key : Type 0) : Type 0 where
  pub sha_256 : Text → Option (List ℕ)
  pub import_key : Jwk → Option Key
  pub verify_signature : Key → List ℕ → Text → Option Bool
  pub btoa : List ℕ → Text
  pub json_string : Text → Text
  pub parse_url : Text → Option Url
  pub href_at : Text → Url → Text

-- A list of keys, where an entry can be null; `none` if it throws, or gives no array.
abbrev pub Jwks : Type 0
Jwks = Option (List (Option Jwk))

pub data DirectoryReply : Type 0 where
  fetch_failed not_ok no_json other_body : DirectoryReply
  bare_array : List (Option Jwk) → DirectoryReply
  json_object : (keys jwks_keys : Option (List (Option Jwk))) → DirectoryReply

-- What the resolution of one key sees: the clock, the injected directory, and the network.
pub record Surroundings : Type 0 where
  pub now_ms : ℕ
  pub fetch_directory : Option (Text → Jwks)
  pub fetch : Text → DirectoryReply

pub record CacheEntry : Type 0 where
  pub jwk : Jwk
  pub expires_at : ℕ

abbrev pub Cache : Type 0
Cache = List (Text × CacheEntry)

abbrev pub jwks_cache_ttl_ms : ℕ
jwks_cache_ttl_ms = 60 * 60 * 1000

abbrev pub is_text : Option Text → Text → Bool
is_text none t = false
is_text (some s) t = text_eq s t

abbrev pub is_given : Option Text → Bool
is_given none = false
is_given (some []) = false
is_given (some (c ∷ t)) = true

abbrev pub is_ed25519 : Jwk → Bool
is_ed25519 jwk =
    is_text jwk.kty (codes "OKP") && is_text jwk.crv (codes "Ed25519") && is_given jwk.x

-- `replace(/\+/g, "-").replace(/\//g, "_").replace(/=+$/, "")`.
abbrev url_safe : ℕ → ℕ
url_safe c = if c == b'+' then b'-' else if c == b'/' then b'_' else c

abbrev without_padding_step : ℕ → Text → Text
without_padding_step c [] = if c == b'=' then [] else c ∷ []
without_padding_step c (d ∷ t) = c ∷ d ∷ t

abbrev without_padding : Text → Text
without_padding [] = []
without_padding (c ∷ t) = without_padding_step c (without_padding t)

-- `origin.replace(/^"|"$/g, "")`.
abbrev without_last_quote : Text → Text
without_last_quote [] = []
without_last_quote (c ∷ []) = if c == b'"' then [] else c ∷ []
without_last_quote (c ∷ d ∷ t) = c ∷ without_last_quote (d ∷ t)

unfoldable pub without_quotes : Text → Text
without_quotes [] = []
without_quotes (c ∷ t) = if c == b'"' then without_last_quote t else without_last_quote (c ∷ t)

abbrev keys_of_object : Option (List (Option Jwk)) → Option (List (Option Jwk)) → Jwks
keys_of_object (some keys) jwks_keys = some keys
keys_of_object none (some keys) = some keys
keys_of_object none none = some []

unfoldable pub keys_of_reply : DirectoryReply → Jwks
keys_of_reply fetch_failed = none
keys_of_reply not_ok = some []
keys_of_reply no_json = none
keys_of_reply other_body = some []
keys_of_reply (bare_array keys) = some keys
keys_of_reply (json_object keys jwks_keys) = keys_of_object keys jwks_keys

module _ {Key : Type 0} (crypto : Crypto Key) where
  unfoldable pub base64_url_encode : List ℕ → Text
  base64_url_encode bytes = without_padding (map url_safe (crypto.btoa bytes))

  abbrev json_str : Option Text → Text
  json_str v = crypto.json_string (or_default v [])

  unfoldable pub canonical_jwk : Jwk → Text
  canonical_jwk jwk =
      codes "{\"crv\":"
      ++ json_str jwk.crv
      ++ codes ",\"kty\":"
      ++ json_str jwk.kty
      ++ codes ",\"x\":"
      ++ json_str jwk.x
      ++ codes "}"

  -- `none` if it throws.
  unfoldable pub jwk_thumbprint : Jwk → Option Text
  unfolding canonical_jwk base64_url_encode
  jwk_thumbprint jwk = elim (crypto.sha_256 (canonical_jwk jwk)) [
    | none ↦ none
    | some digest ↦ some (base64_url_encode digest)
  ]

  abbrev pub has_thumbprint : Text → Jwk → Bool
  unfolding jwk_thumbprint
  has_thumbprint keyid jwk = is_text (jwk_thumbprint jwk) keyid

  unfoldable pub find_key : Text → List (Option Jwk) → Option Jwk
  unfolding has_thumbprint
  find_key keyid [] = none
  find_key keyid (none ∷ jwks) = find_key keyid jwks
  find_key keyid (some jwk ∷ jwks) =
      if is_ed25519 jwk && has_thumbprint keyid jwk then some jwk else find_key keyid jwks

  abbrev directory_at : Surroundings → Option Url → Jwks
  unfolding keys_of_reply
  directory_at env none = some []
  directory_at env (some base) =
      keys_of_reply
        (env.fetch (crypto.href_at (codes "/.well-known/http-message-signatures-directory") base))

  unfoldable pub default_fetch_directory : Surroundings → Option Text → Jwks
  unfolding without_quotes directory_at
  default_fetch_directory env none = some []
  default_fetch_directory env (some []) = some []
  default_fetch_directory env (some (c ∷ t)) =
      directory_at env (crypto.parse_url (trim (without_quotes (c ∷ t))))

  unfoldable pub fetch_jwks : Surroundings → Option Text → Jwks
  unfolding default_fetch_directory
  fetch_jwks env agent = elim env.fetch_directory [
    | some fetch_directory ↦ fetch_directory (or_default agent [])
    | none ↦ default_fetch_directory env agent
  ]

  abbrev pub cached_key : ℕ → Option CacheEntry → Option Jwk
  cached_key now none = none
  cached_key now (some entry) = if ltb now entry.expires_at then some entry.jwk else none

  abbrev pub keep_key : Text → ℕ → Cache → Option Jwk → Cache × Option Jwk
  unfolding map_set
  keep_key keyid now cache none = (cache, none)
  keep_key keyid now cache (some jwk) =
      (map_set cache keyid (record { jwk = jwk; expires_at = now + jwks_cache_ttl_ms }), some jwk)

  abbrev pub key_among : Text → ℕ → Cache → Jwks → Cache × Option Jwk
  unfolding find_key keep_key
  key_among keyid now cache none = (cache, none)
  key_among keyid now cache (some jwks) = keep_key keyid now cache (find_key keyid jwks)

  abbrev pub unless_cached :
      Surroundings → Text → Option Text → Cache → Option Jwk → Cache × Option Jwk
  unfolding fetch_jwks key_among
  unless_cached env keyid agent cache (some jwk) = (cache, some jwk)
  unless_cached env keyid agent cache none = key_among keyid env.now_ms cache (fetch_jwks env agent)

  unfoldable pub resolve_key : Surroundings → Text → Option Text → Cache → Cache × Option Jwk
  unfolding unless_cached
  resolve_key env keyid agent cache =
      unless_cached env keyid agent cache (cached_key env.now_ms (map_get cache keyid))
