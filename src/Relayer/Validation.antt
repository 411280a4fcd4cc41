-- ===== src/Relayer/Validation.antt =====
-- payment-relayer/src/validation.ts and routing.ts.
pub mod Laws
use verivyx_monorepo.Prelude.{
  ℕ, ◌-◌, Bool, true, false, not, ◌&&◌, ◌||◌, Option, none, some, List, [], ◌∷◌, Text, codes,
  text_eq, has, ltb, ◌==◌, length, drop, map, filter, if◌then◌else◌,
}
use verivyx_monorepo.Prelude.Parse.{split, trim}
use verivyx_monorepo.Relayer.Types.{
  Outcome, ok, rejected, thrown, ContractCall, paywall_contract_required, paywall_allowlist_empty,
  paywall_contract_not_allowed, adapter_required, adapter_allowlist_empty, adapter_not_allowed,
}

abbrev is_empty : Text → Bool
is_empty [] = true
is_empty (c ∷ t) = false

-- The set as a list; its duplicates make no difference to `has` and to its being empty.
unfoldable pub parse_allowed_contracts : Option Text → List Text
parse_allowed_contracts none = []
parse_allowed_contracts (some []) = []
parse_allowed_contracts (some (c ∷ t)) =
    filter (λ s. not (is_empty s)) (map trim (split b',' (c ∷ t)))

unfoldable pub assert_paywall_contract_allowed : Option Text → List Text → Outcome Text
assert_paywall_contract_allowed none allowed = rejected paywall_contract_required
assert_paywall_contract_allowed (some []) allowed = rejected paywall_contract_required
assert_paywall_contract_allowed (some (c ∷ t)) allowed =
    if length allowed == 0
    then rejected paywall_allowlist_empty
    else if has allowed (c ∷ t)
    then ok (c ∷ t)
    else rejected paywall_contract_not_allowed

unfoldable pub assert_adapter_allowed : Text → List Text → Outcome (Unit {0})
assert_adapter_allowed [] allowed = rejected adapter_required
assert_adapter_allowed (c ∷ t) allowed =
    if length allowed == 0
    then rejected adapter_allowlist_empty
    else if has allowed (c ∷ t)
    then ok tt
    else rejected adapter_not_allowed

pub data NetworkName : Type 0 where
  testnet public : NetworkName

-- `none` is the thrown error.
unfoldable pub resolve_network_name : Option Text → Option NetworkName
resolve_network_name none = some testnet
resolve_network_name (some raw) =
    if text_eq raw (codes "testnet")
    then some testnet
    else if text_eq raw (codes "public") || text_eq raw (codes "mainnet")
    then some public
    else none

pub data StableReason : Type 0 where
  settlement_timeout settlement_failed : StableReason

-- `t.endsWith(suffix)`.
abbrev pub ends_with : Text → Text → Bool
ends_with t suffix =
    not (ltb (length t) (length suffix)) && text_eq (drop (length t - length suffix) t) suffix

-- The status and the reason for the message of a thrown error.
unfoldable pub to_stable_error : Text → ℕ × StableReason
to_stable_error message =
    if ends_with message (codes "_timeout")
    then (503, settlement_timeout)
    else (500, settlement_failed)

pub data SettlePath : Type 0 where
  adapter legacy : SettlePath

unfoldable pub classify_settle_path : ContractCall → List Text → SettlePath
classify_settle_path op allowed_adapters =
    if ltb 0 (length allowed_adapters)
      && has allowed_adapters op.contract_id
      && text_eq op.function_name (codes "pay")
    then adapter
    else legacy
