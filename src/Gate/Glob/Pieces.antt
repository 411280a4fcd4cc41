-- ===== src/Gate/Glob/Pieces.antt =====
-- Proofs about the pieces of a glob's expression: what a list of pieces describes.
use verivyx_monorepo.Prelude.{
  ℕ, ◌≡◌, refl, inl, inr, Bool, true, List, [], ◌∷◌, ◌++◌, Text, All, arith, Bool-cases, ap,
}
use verivyx_monorepo.Gate.Glob.{
  Piece, literal, within_segment, across_segments, in_segment, in_line, run_then, test,
}

-- The text is a stretch of characters that `ok` allows, and then a text with the property.
abbrev pub Stretch : (ℕ → Bool) → (Text → Type 0) → Text → Type 0
Stretch ok P t =
    (before : Text) × (rest : Text) × (t ≡ before ++ rest) × All (λ c. ok c ≡ true) before × P rest

-- What a list of pieces describes: characters for themselves, and stretches inside a segment or
-- inside a line.
abbrev pub Describes : List Piece → Text → Type 0
Describes [] t = t ≡ []
Describes (literal c ∷ pieces) t = (rest : Text) × (t ≡ c ∷ rest) × Describes pieces rest
Describes (within_segment ∷ pieces) t = Stretch in_segment (Describes pieces) t
Describes (across_segments ∷ pieces) t = Stretch in_line (Describes pieces) t

run_then-Stretch :
    (ok : ℕ → Bool) (rest : Text → Bool) (P : Text → Type 0)
    → ((t : Text) → rest t ≡ true → P t)
    → (t : Text) → run_then ok rest t ≡ true
    → Stretch ok P t
unfolding run_then
run_then-Stretch ok rest P sound [] h = ([], [], refl, tt, sound [] h)
run_then-Stretch ok rest P sound (c ∷ t) h = elim (Bool-cases (rest (c ∷ t))) [
  | inl here ↦ ([], c ∷ t, refl, tt, sound (c ∷ t) here)
  | inr later ↦
      (let (before, after, same, allowed, holds) =
          run_then-Stretch ok rest P sound t (ground arith) in
        (c ∷ before, after, ap (λ r. c ∷ r) same, (ground arith, allowed), holds))
]

run_then-accepts :
    (ok : ℕ → Bool) (rest : Text → Bool) (before after : Text)
    → All (λ c. ok c ≡ true) before
    → rest after ≡ true
    → run_then ok rest (before ++ after) ≡ true
unfolding run_then
run_then-accepts ok rest [] [] allowed h = h
run_then-accepts ok rest [] (c ∷ after) allowed h = ground arith
run_then-accepts ok rest (c ∷ before) after (first, allowed) h =
    ground (arith, run_then-accepts ok rest before after allowed h)

pub test_sound : (pieces : List Piece) (t : Text) → test pieces t ≡ true → Describes pieces t
unfolding test
test_sound [] [] h = refl
test_sound [] (c ∷ t) h = cc
test_sound (literal c ∷ pieces) [] h = cc
test_sound (literal c ∷ pieces) (d ∷ t) h = (t, ground arith, test_sound pieces t (ground arith))
test_sound (within_segment ∷ pieces) t h =
    run_then-Stretch in_segment (test pieces) (Describes pieces) (test_sound pieces) t h
test_sound (across_segments ∷ pieces) t h =
    run_then-Stretch in_line (test pieces) (Describes pieces) (test_sound pieces) t h

pub test_complete : (pieces : List Piece) (t : Text) → Describes pieces t → test pieces t ≡ true
unfolding test
test_complete [] t h = rw h
test_complete (literal c ∷ pieces) t (rest, same, h) =
    rw same (ground (arith, test_complete pieces rest h))
test_complete (within_segment ∷ pieces) t (before, rest, same, allowed, h) =
    rw same
      (run_then-accepts in_segment (test pieces) before rest allowed (test_complete pieces rest h))
test_complete (across_segments ∷ pieces) t (before, rest, same, allowed, h) =
    rw same
      (run_then-accepts in_line (test pieces) before rest allowed (test_complete pieces rest h))
