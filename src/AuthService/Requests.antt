-- ===== src/AuthService/Requests.antt =====
-- The rate limiter of index.ts, and what its handlers read off a request.
use verivyx_monorepo.Prelude.{
  ℕ, ◌+◌, Bool, true, false, Option, none, some, or_default, List, [], ◌∷◌, Text, codes, text_eq,
  leb, ltb, take, if◌then◌else◌,
}
use verivyx_monorepo.Prelude.Int.{pos, negsuc}
use verivyx_monorepo.Prelude.Maps.{map_get, map_set}
use verivyx_monorepo.AuthService.Checks.{
  Number, whole, below_half, from_half, le_integer, client_ip,
}
use verivyx_monorepo.AuthService.Reputation.{RepKey}
use verivyx_monorepo.AuthService.Types.{Config, Request, Window}

abbrev pub opened : ℕ → ℕ → Window
opened now window_ms = record { count = 1; reset_at = now + window_ms }

-- A window that is open lets so many through.
abbrev pub pass : ℕ → ℕ → ℕ → Option Window → Window × Bool
pass max now window_ms none = (opened now window_ms, true)
pass max now window_ms (some e) =
    if ltb e.reset_at now
    then (opened now window_ms, true)
    else if leb max e.count
    then (e, false)
    else (record e { count = e.count + 1 }, true)

unfoldable pub rate_limit : List (Text × Window) → Text → ℕ → ℕ → ℕ → List (Text × Window) × Bool
unfolding map_get map_set
rate_limit limits key max window_ms now =
    let (window, passed) = pass max now window_ms (map_get limits key) in
    (map_set limits key window, passed)

unfoldable pub client_ja4 : Request → Text
client_ja4 req = take 256 (or_default req.x_ja4 [])

abbrev pub user_agent_of : Request → Text
user_agent_of req = take 256 (or_default req.user_agent [])

abbrev pub unless_empty : Text → Option Text
unless_empty [] = none
unless_empty (c ∷ t) = some (c ∷ t)

abbrev pub req_ip : Config → Request → Option Text
req_ip config req = client_ip req.x_forwarded_for req.remote_address config.trusted_proxy_hops

-- `undefined` in a text.
abbrev pub ip_text : Option Text → Text
ip_text ip = or_default ip (codes "undefined")

-- In a reputation key an undefined address is an empty one.
abbrev pub rep_key : Option Text → Option Text → Text → RepKey
rep_key ja4 ip ua = record { ja4 = ja4; ip = or_default ip []; ua = ua }

-- A reported solve time from 0 to 120 seconds, rounded.
abbrev pub rounded : Number → Option ℕ
rounded n = elim n.floor [
  | negsuc a ↦ none
  | pos a ↦ some (elim n.fraction [ whole ↦ a | below_half ↦ a | from_half ↦ a + 1 ])
]

unfoldable pub pow_ms : Option Number → Option ℕ
pow_ms none = none
pow_ms (some n) = if le_integer n 120000 then rounded n else none

abbrev pub is_anomaly : ℕ → Option ℕ → Bool
is_anomaly least none = false
is_anomaly least (some ms) = ltb ms least

abbrev pub ip_eq : Option Text → Option Text → Bool
ip_eq none none = true
ip_eq (some a) (some b) = text_eq a b
ip_eq _ _ = false
