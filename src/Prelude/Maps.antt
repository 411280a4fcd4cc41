-- ===== src/Prelude/Maps.antt =====
-- JavaScript's Map with texts as keys, in the order of insertion.
use verivyx_monorepo.Prelude.{
  ◌≡◌, refl, subst, false, Option, none, some, List, [], ◌∷◌, Text, text_eq, text_eq_iff,
  text_eq_refl, All, Bool-cases, inl, inr, if◌then◌else◌,
}

module _ {V : Type 0} where
  -- `map.get(key)`.
  unfoldable pub map_get : List (Text × V) → Text → Option V
  map_get [] key = none
  map_get ((k, v) ∷ entries) key = if text_eq k key then some v else map_get entries key

  -- `map.set(key, value)`, which keeps the place of a key that is there.
  unfoldable pub map_set : List (Text × V) → Text → V → List (Text × V)
  map_set [] key value = (key, value) ∷ []
  map_set ((k, v) ∷ entries) key value =
      let rest = map_set entries key value in
      if text_eq k key then (key, value) ∷ entries else (k, v) ∷ rest

module _ {V : Type 0} (P : Text × V → Type 0) where
  pub map_set-All :
      (entries : List (Text × V)) (key : Text) (value : V)
      → P (key, value)
      → All P entries
      → All P (map_set entries key value)
  unfolding map_set
  map_set-All [] key value p h = (p, tt)
  map_set-All ((k, v) ∷ entries) key value p h = elim (Bool-cases (text_eq k key)) [
    | inl same ↦ rw same (p, h.1)
    | inr other ↦ rw other (h.0, map_set-All entries key value p h.1)
  ]

  pub map_get-All :
      (entries : List (Text × V)) (key : Text) (value : V)
      → All P entries
      → map_get entries key ≡ some value
      → P (key, value)
  unfolding map_get
  map_get-All [] key value h found = cc
  map_get-All ((k, v) ∷ entries) key value h found = elim (Bool-cases (text_eq k key)) [
    | inl same ↦
        let same_key = (text_eq_iff k key).0 same in
        let hit : some v ≡ some value = rw same at found in
        let pair : (k, v) ≡ (key, value) = cc in subst P pair h.0
    | inr other ↦ map_get-All entries key value h.1 (rw other at found)
  ]

module _ {V : Type 0} where
  -- What is read after a write.
  pub map_get-map_set :
      (entries : List (Text × V)) (key : Text) (value : V)
      → map_get (map_set entries key value) key ≡ some value
  unfolding map_get map_set
  map_get-map_set [] key value = rw (text_eq_refl key) refl
  map_get-map_set ((k, v) ∷ entries) key value = elim (Bool-cases (text_eq k key)) [
    | inl same ↦ rw same (rw (text_eq_refl key) refl)
    | inr other ↦ rw other (rw other (map_get-map_set entries key value))
  ]

  pub map_get-other :
      (entries : List (Text × V)) (key written : Text) (value : V)
      → text_eq written key ≡ false
      → map_get (map_set entries written value) key ≡ map_get entries key
  unfolding map_get map_set
  map_get-other [] key written value apart = rw apart refl
  map_get-other ((k, v) ∷ entries) key written value apart = elim (Bool-cases (text_eq k written)) [
    | inl same ↦ let here = (text_eq_iff k written).0 same in rw (same, apart, here, apart) refl
    | inr other ↦ let rest = map_get-other entries key written value apart in rw (other, rest) refl
  ]
