-- ===== src/Prelude/Words.antt =====
-- Texts: JavaScript strings as lists of code units, compared by `===` and searched.
use Prim.Native.Nat.{ℕ}
use Prim.Native.Char.{code}
use Prim.Native.String.{String}
use mathlib.Core.Path.{◌≡◌, refl}
use mathlib.Core.Logic.{◌↔◌}
use mathlib.Core.Bool.{Bool, true, false, ◌&&◌, ◌||◌}
use mathlib.Core.List.{List, [], ◌∷◌}
use native.Mathlib.Omega.{arith}
use verivyx_monorepo.Prelude.Tests.{◌==◌}
use verivyx_monorepo.Prelude.Lists.{Any}

abbrev pub Text : Type 0
Text = List ℕ

-- A literal.
abbrev pub codes : String → Text
codes String.[] = []
codes (String.◌∷◌ c s) = code c ∷ codes s

unfoldable pub text_eq : Text → Text → Bool
text_eq [] [] = true
text_eq (a ∷ s) (b ∷ t) = (a == b) && text_eq s t
text_eq _ _ = false

text_eq_sound : (s t : Text) → text_eq s t ≡ true → s ≡ t
unfolding text_eq
text_eq_sound [] [] h = refl
text_eq_sound (a ∷ s) (b ∷ t) h = ground (arith, text_eq_sound s t)
text_eq_sound [] (b ∷ t) h = ground arith
text_eq_sound (a ∷ s) [] h = ground arith

pub text_eq_refl : (s : Text) → text_eq s s ≡ true
unfolding text_eq
text_eq_refl [] = refl
text_eq_refl (a ∷ s) = ground (arith, text_eq_refl s)

pub text_eq_iff : (s t : Text) → (text_eq s t ≡ true) ↔ (s ≡ t)
text_eq_iff s t = (text_eq_sound s t, λ e. rw e (text_eq_refl t))

-- `new Set(ts).has(t)`.
unfoldable pub has : List Text → Text → Bool
has [] t = false
has (s ∷ ss) t = text_eq s t || has ss t

abbrev pub Listed : Text → List Text → Type 0
Listed t ss = Any (λ s. s ≡ t) ss

pub has_iff : (ss : List Text) (t : Text) → (has ss t ≡ true) ↔ Listed t ss
unfolding has
has_iff [] t = (λ h. cc, λ h. absurd h)
has_iff (s ∷ ss) t = ground (arith, text_eq_iff s t, has_iff ss t)

-- `t.startsWith(p)` and `t.includes(p)`.
unfoldable pub starts_with : Text → Text → Bool
starts_with t [] = true
starts_with [] (c ∷ p) = false
starts_with (d ∷ t) (c ∷ p) = (d == c) && starts_with t p

unfoldable pub includes : Text → Text → Bool
includes [] p = starts_with [] p
includes (c ∷ t) p = starts_with (c ∷ t) p || includes t p
