-- ===== src/Gate/Glob.antt =====
-- globToRegExp and isMatched of index.ts: the routes that are gated.
pub mod Pieces
pub mod Laws
use verivyx_monorepo.Prelude.{
  ℕ, Bool, true, false, not, ◌&&◌, ◌||◌, Option, none, some, List, [], ◌∷◌, Text, any, ◌==◌,
}
use verivyx_monorepo.Gate.Types.{Request}

-- What a regular expression made from a glob consists of: an escaped character, `[^/]*` and `.*`.
pub data Piece : Type 0 where
  literal : ℕ → Piece
  within_segment across_segments : Piece

-- The loop of globToRegExp; a star looks at the character after it.
unfoldable pub glob_pieces : Text → List Piece
glob_pieces [] = []
glob_pieces (c ∷ []) = (elim (c == b'*') [ true ↦ within_segment | false ↦ literal c ]) ∷ []
glob_pieces (c ∷ d ∷ t) = elim (c == b'*') [
  | false ↦ literal c ∷ glob_pieces (d ∷ t)
  | true ↦ elim (d == b'*') [
    | true ↦ across_segments ∷ glob_pieces t
    | false ↦ within_segment ∷ glob_pieces (d ∷ t)
  ]
]

-- `[^/]`, and `.`, which is no line terminator.
abbrev pub in_segment : ℕ → Bool
in_segment c = not (c == b'/')

abbrev pub in_line : ℕ → Bool
in_line c = not (c == 10 || c == 13 || c == 0x2028 || c == 0x2029)

-- Some part of the text that `ok` allows is passed over, and the rest passes the test.
unfoldable pub run_then : (ℕ → Bool) → (Text → Bool) → Text → Bool
run_then ok rest [] = rest []
run_then ok rest (c ∷ t) = let later = run_then ok rest t in rest (c ∷ t) || (ok c && later)

abbrev one_then : ℕ → (Text → Bool) → Text → Bool
one_then c rest [] = false
one_then c rest (d ∷ t) = (c == d) && rest t

abbrev is_end : Text → Bool
is_end [] = true
is_end (c ∷ t) = false

-- The test of the expression, which is anchored at both ends.
unfoldable pub test : List Piece → Text → Bool
unfolding run_then
test [] = is_end
test (literal c ∷ pieces) = one_then c (test pieces)
test (within_segment ∷ pieces) = run_then in_segment (test pieces)
test (across_segments ∷ pieces) = run_then in_line (test pieces)

abbrev matched_path : List Text → Option Text → Bool
matched_path patterns none = true
matched_path patterns (some pathname) = any (λ p. test (glob_pieces p) pathname) patterns

unfoldable pub is_matched : Request → List Text → Bool
unfolding test glob_pieces
is_matched req [] = true
is_matched req (p ∷ ps) = matched_path (p ∷ ps) req.pathname
