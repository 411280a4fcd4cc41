-- ===== src/Prelude/Parse/Laws.antt =====
-- Proofs about splitting a text and joining its parts.
use verivyx_monorepo.Prelude.{
  ℕ, ◌≡◌, refl, ap, ◌∙◌, sym, Text, Bool, true, not, List, [], ◌∷◌, ◌++◌, All, all, ◌==◌, arith,
  Bool-cases, inl, inr,
}
use verivyx_monorepo.Prelude.Parse.{split}

-- `ts.join(sep)`, for a separator of one code unit.
abbrev pub join : ℕ → List Text → Text
join sep [] = []
join sep (w ∷ []) = w
join sep (w ∷ v ∷ ws) = w ++ sep ∷ join sep (v ∷ ws)

abbrev pub lacks : ℕ → Text → Bool
lacks sep t = all (λ c. not (c == sep)) t

pub split-lacks : (sep : ℕ) (w : Text) → lacks sep w ≡ true → split sep w ≡ w ∷ []
unfolding split
split-lacks sep [] h = refl
split-lacks sep (c ∷ w) h = ground (arith, split-lacks sep w)

pub split-append :
    (sep : ℕ) (w t : Text) → lacks sep w ≡ true → split sep (w ++ sep ∷ t) ≡ w ∷ split sep t
unfolding split
split-append sep [] t h = ground arith
split-append sep (c ∷ w) t h = ground (arith, split-append sep w t)

-- What a split consists of: the parts lack the separator, and joined they are the text.
pub record IsSplit (sep : ℕ) (t : Text) (parts : List Text) : Type 0 where
  pub first : Text
  pub others : List Text
  pub shape : parts ≡ first ∷ others
  pub separate : All (λ w. lacks sep w ≡ true) (first ∷ others)
  pub joined : join sep (first ∷ others) ≡ t

join-cons :
    (sep c : ℕ) (w : Text) (ws : List Text) → join sep ((c ∷ w) ∷ ws) ≡ c ∷ join sep (w ∷ ws)
join-cons sep c w [] = refl
join-cons sep c w (v ∷ ws) = refl

pub split-IsSplit : (sep : ℕ) (t : Text) → IsSplit sep t (split sep t)
unfolding split
split-IsSplit sep [] = record {
  first = [];
  others = [];
  shape = refl;
  separate = (refl, tt);
  joined = refl;
}
split-IsSplit sep (c ∷ t) =
    let rest = split-IsSplit sep t in
    elim (Bool-cases (c == sep)) [
      | inl here ↦ record {
        first = [];
        others = rest.first ∷ rest.others;
        shape = rw here (ap (λ r. [] ∷ r) rest.shape);
        separate = (refl, rest.separate);
        joined = ground (arith, rest.joined);
      }
      | inr other ↦ record {
        first = c ∷ rest.first;
        others = rest.others;
        shape = rw (other, rest.shape) refl;
        separate = (ground (arith, rest.separate.0), rest.separate.1);
        joined = join-cons sep c rest.first rest.others ∙ ap (λ r. c ∷ r) rest.joined;
      }
    ]

-- A text in four parts.
pub split_four :
    (sep : ℕ) (t a b c d : Text)
    → split sep t ≡ a ∷ b ∷ c ∷ d ∷ []
    → t ≡ a ++ sep ∷ (b ++ sep ∷ (c ++ sep ∷ d))
split_four sep t a b c d h =
    let parts = split-IsSplit sep t in sym parts.joined ∙ ap (join sep) (sym parts.shape ∙ h)
