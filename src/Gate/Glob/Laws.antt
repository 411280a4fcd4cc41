-- ===== src/Gate/Glob/Laws.antt =====
-- Proofs about the globs: which paths a glob stands for.
use verivyx_monorepo.Prelude.{
  ℕ, ◌≡◌, ◌≢◌, ◌⊎◌, ◌↔◌, refl, sym, subst, inl, inr, true, some, List, [], ◌∷◌, ◌++◌, Text, All,
  Any, any, arith, Bool-cases, ◌==◌, ==_iff,
}
use verivyx_monorepo.Gate.Types.{Request}
use verivyx_monorepo.Gate.Glob.{
  literal, within_segment, across_segments, glob_pieces, in_segment, in_line, test, is_matched,
}
use verivyx_monorepo.Gate.Glob.Pieces.{Describes, test_sound, test_complete}

-- A glob that does not go on with a star.
abbrev pub NoStar : Text → Type 0
NoStar [] = Unit
NoStar (c ∷ glob) = c ≢ b'*'

-- The texts that a glob stands for: a character stands for itself, `**` for a stretch without a
-- line terminator, and a star that no other follows for a stretch without a slash.
pub data Matches : Text → Text → Type 0 where
  ended : Matches [] []
  same : (c : ℕ) (glob text : Text) → c ≢ b'*' → Matches glob text → Matches (c ∷ glob) (c ∷ text)
  star :
      (c : ℕ) (glob before rest text : Text)
      → c ≡ b'*'
      → NoStar glob
      → text ≡ before ++ rest
      → All (λ x. in_segment x ≡ true) before
      → Matches glob rest
      → Matches (c ∷ glob) text
  two_stars :
      (c d : ℕ) (glob before rest text : Text)
      → c ≡ b'*'
      → d ≡ b'*'
      → text ≡ before ++ rest
      → All (λ x. in_line x ≡ true) before
      → Matches glob rest
      → Matches (c ∷ d ∷ glob) text

-- The pieces of a glob by its first characters.
pieces_same :
    (c : ℕ) (glob : Text) → c ≢ b'*' → glob_pieces (c ∷ glob) ≡ literal c ∷ glob_pieces glob
unfolding glob_pieces
pieces_same c [] other = elim (Bool-cases (c == b'*')) [
  | inl e ↦ absurd (other ((==_iff c b'*').0 e))
  | inr e ↦ rw (e, glob_pieces)
]
pieces_same c (d ∷ glob) other = elim (Bool-cases (c == b'*')) [
  | inl e ↦ absurd (other ((==_iff c b'*').0 e))
  | inr e ↦ rw (e, glob_pieces)
]

pieces_star :
    (c : ℕ) (glob : Text)
    → c ≡ b'*'
    → NoStar glob
    → glob_pieces (c ∷ glob) ≡ within_segment ∷ glob_pieces glob
unfolding glob_pieces
pieces_star c [] found last = rw ((==_iff c b'*').1 found, glob_pieces)
pieces_star c (d ∷ glob) found other = elim (Bool-cases (d == b'*')) [
  | inl e ↦ absurd (other ((==_iff d b'*').0 e))
  | inr e ↦ rw ((==_iff c b'*').1 found, e, glob_pieces)
]

pieces_two :
    (c d : ℕ) (glob : Text)
    → c ≡ b'*'
    → d ≡ b'*'
    → glob_pieces (c ∷ d ∷ glob) ≡ across_segments ∷ glob_pieces glob
unfolding glob_pieces
pieces_two c d glob first second =
    rw ((==_iff c b'*').1 first, (==_iff d b'*').1 second, glob_pieces)

described_end : (text : Text) → Describes (glob_pieces []) text → text ≡ []
unfolding glob_pieces
described_end text h = h

Describes-Matches : (glob text : Text) → Describes (glob_pieces glob) text → Matches glob text
Describes-Matches [] text h = subst (Matches []) (sym (described_end text h)) ended
Describes-Matches (c ∷ []) text h = elim (Bool-cases (c == b'*')) [
  | inr other ↦
      let apart : c ≢ b'*' = λ e. absurd (ground (arith, ==_iff c b'*')) in
      let (rest, split_so, later) = rw (pieces_same c [] apart) at h in
      subst (Matches (c ∷ [])) (sym split_so)
        (same c [] rest apart (Describes-Matches [] rest later))
  | inl found ↦
      let is_star = (==_iff c b'*').0 found in
      let (before, rest, split_so, allowed, later) = rw (pieces_star c [] is_star tt) at h in
      star c [] before rest text is_star tt split_so allowed (Describes-Matches [] rest later)
]
Describes-Matches (c ∷ d ∷ glob) text h = elim (Bool-cases (c == b'*')) [
  | inr other ↦
      let apart : c ≢ b'*' = λ e. absurd (ground (arith, ==_iff c b'*')) in
      let (rest, split_so, later) = rw (pieces_same c (d ∷ glob) apart) at h in
      subst (Matches (c ∷ d ∷ glob)) (sym split_so)
        (same c (d ∷ glob) rest apart (Describes-Matches (d ∷ glob) rest later))
  | inl found ↦
      let is_star = (==_iff c b'*').0 found in
      elim (Bool-cases (d == b'*')) [
        | inr other ↦
            let apart : d ≢ b'*' = λ e. absurd (ground (arith, ==_iff d b'*')) in
            let (before, rest, split_so, allowed, later) =
              rw (pieces_star c (d ∷ glob) is_star apart) at h in
            star c (d ∷ glob) before rest text is_star apart split_so allowed
              (Describes-Matches (d ∷ glob) rest later)
        | inl again ↦
            let is_second = (==_iff d b'*').0 again in
            let (before, rest, split_so, allowed, later) =
              rw (pieces_two c d glob is_star is_second) at h in
            two_stars c d glob before rest text is_star is_second split_so allowed
              (Describes-Matches glob rest later)
      ]
]

Matches-Describes : (glob text : Text) → Matches glob text → Describes (glob_pieces glob) text
unfolding glob_pieces
Matches-Describes _ _ ended = refl
Matches-Describes _ _ (same c glob text apart later) =
    rw (pieces_same c glob apart) (text, refl, Matches-Describes glob text later)
Matches-Describes _ text (star c glob before rest _ is_star last split_so allowed later) =
    rw (pieces_star c glob is_star last)
      (before, rest, split_so, allowed, Matches-Describes glob rest later)
Matches-Describes _ text (two_stars c d glob before rest _ first second split_so allowed later) =
    rw (pieces_two c d glob first second)
      (before, rest, split_so, allowed, Matches-Describes glob rest later)

any_iff :
    (pathname : Text) (patterns : List Text)
    → (any (λ p. test (glob_pieces p) pathname) patterns ≡ true)
      ↔ Any (λ p. Matches p pathname) patterns
any_iff pathname [] = (λ h. cc, λ h. absurd h)
any_iff pathname (p ∷ patterns) = (
  λ h. elim (Bool-cases (test (glob_pieces p) pathname)) [
    | inl here ↦ inl (Describes-Matches p pathname (test_sound (glob_pieces p) pathname here))
    | inr other ↦ inr ((any_iff pathname patterns).0 (rw other at h))
  ],
  λ h. elim h [
    | inl here ↦ rw (test_complete (glob_pieces p) pathname (Matches-Describes p pathname here))
    | inr later ↦ ground (arith, (any_iff pathname patterns).1 later)
  ],
)

-- A request whose path is known is gated exactly when no pattern is configured or one of the
-- patterns stands for the whole path: each `**` for any stretch of a line, each other star for a
-- stretch without a slash, and every other character for itself.
pub is_matched_iff :
    (req : Request) (pathname : Text) (patterns : List Text)
    → req.pathname ≡ some pathname
    → (is_matched req patterns ≡ true)
      ↔ ((patterns ≡ []) ⊎ Any (λ glob. Matches glob pathname) patterns)
unfolding is_matched
is_matched_iff req pathname [] known = (λ h. inl refl, λ h. refl)
is_matched_iff req pathname (p ∷ patterns) known = (
  λ h. inr ((any_iff pathname (p ∷ patterns)).0 (rw known at h)),
  λ h. elim h [
    | inl none_given ↦ absurd (cc none_given)
    | inr found ↦ rw known ((any_iff pathname (p ∷ patterns)).1 found)
  ],
)
