-- ===== src/Relayer/Validation/Laws.antt =====
-- Proofs about the allowlists and the routing.
use verivyx_monorepo.Prelude.{
  ◌≡◌, ◌≢◌, ◌↔◌, Option, none, some, List, [], ◌∷◌, Text, codes, text_eq_iff, has_iff, Listed,
  arith,
}
use verivyx_monorepo.Relayer.Types.{ok, ContractCall}
use verivyx_monorepo.Relayer.Validation.{
  assert_paywall_contract_allowed, adapter, classify_settle_path,
}

-- A contract id passes exactly when it is not empty and is listed: nothing passes an empty list.
pub assert_paywall_contract_allowed_iff :
    (raw : Option Text) (allowed : List Text) (id : Text)
    → (assert_paywall_contract_allowed raw allowed ≡ ok id)
      ↔ ((raw ≡ some id) × (id ≢ []) × Listed id allowed)
unfolding assert_paywall_contract_allowed
assert_paywall_contract_allowed_iff none allowed id = ground arith
assert_paywall_contract_allowed_iff (some []) allowed id = ground arith
assert_paywall_contract_allowed_iff (some (c ∷ t)) [] id = ground arith
assert_paywall_contract_allowed_iff (some (c ∷ t)) (a ∷ rest) id =
    ground (arith, has_iff (a ∷ rest) (c ∷ t))

pub classify_settle_path_iff :
    (op : ContractCall) (allowed : List Text)
    → (classify_settle_path op allowed ≡ adapter)
      ↔ (Listed op.contract_id allowed × (op.function_name ≡ codes "pay"))
unfolding classify_settle_path
classify_settle_path_iff op [] = ground arith
classify_settle_path_iff op (a ∷ rest) =
    ground (arith, has_iff (a ∷ rest) op.contract_id, text_eq_iff op.function_name (codes "pay"))
