-- ===== src/Gate/BotAuth/Verify/Freshness.antt =====
-- The time window and the components that an acceptable signature has (webbotauth.ts).
use verivyx_monorepo.Prelude.{
  ℕ, ◌+◌, ◌≤◌, ◌≡◌, refl, sym, Bool, true, false, Option, none, some, or_default, Text, codes,
  text_eq_iff, has, has_iff, Listed, arith,
}
use verivyx_monorepo.Prelude.Int.{ℤ, pos, negsuc}
use verivyx_monorepo.Gate.BotAuth.Fields.{SigSpec}
use verivyx_monorepo.Gate.BotAuth.Keys.{is_text, is_given}
use verivyx_monorepo.Gate.BotAuth.Verify.{is_fresh, is_fresh_if, covers_target, is_acceptable}

-- Not after the time, and not more than a day before the end of the window.
abbrev OpensBy : ℕ → ℕ → ℤ → Type 0
OpensBy time end (pos created) = (created ≤ time) × (created ≤ end) × (end ≤ created + 86400)
OpensBy time end (negsuc before) = end + (before + 1) ≤ 86400

is_fresh-window :
    (now : ℕ) (created expires : ℤ)
    → is_fresh now created expires ≡ true
    → (end : ℕ) × (expires ≡ pos end) × (now ≤ end) × OpensBy (now + 60) end created
unfolding is_fresh
is_fresh-window now (pos created) (pos end) h = (end, refl, ground arith, ground arith)
is_fresh-window now (negsuc before) (pos end) h = (end, refl, ground arith, ground arith)
is_fresh-window now (pos created) (negsuc passed) h = ground arith
is_fresh-window now (negsuc before) (negsuc passed) h = ground arith

-- What the parameters of an accepted signature say at a time.
pub record IsCurrent (now : ℕ) (spec : SigSpec) : Type 0 where
  pub opens : ℤ
  pub end : ℕ
  pub created : spec.params.created ≡ some opens
  pub expires : spec.params.expires ≡ some (pos end)
  pub unexpired : now ≤ end
  pub opened : OpensBy (now + 60) end opens

abbrev pub CoversTarget : SigSpec → Type 0
CoversTarget spec =
    Listed (codes "@authority") spec.components × Listed (codes "@target-uri") spec.components

is_text_sound : (o : Option Text) (t : Text) → is_text o t ≡ true → o ≡ some t
is_text_sound none t h = cc
is_text_sound (some s) t h = ground (arith, text_eq_iff s t)

is_given_sound : (o : Option Text) → is_given o ≡ true → (t : Text) × (o ≡ some t)
is_given_sound none h = cc
is_given_sound (some t) h = (t, refl)

is_fresh_if-IsCurrent :
    (now : ℕ) (spec : SigSpec)
    → is_fresh_if now spec.params.created spec.params.expires ≡ true
    → IsCurrent now spec
unfolding is_fresh_if
is_fresh_if-IsCurrent now spec h = by_times spec.params.created spec.params.expires refl refl h
  where
    by_times :
        (created expires : Option ℤ)
        → spec.params.created ≡ created
        → spec.params.expires ≡ expires
        → is_fresh_if now created expires ≡ true
        → IsCurrent now spec
    by_times none expires c e r = absurd cc
    by_times (some created) none c e r = absurd cc
    by_times (some created) (some expires) c e r =
        let (end, same, unexpired, opened) = is_fresh-window now created expires r in
        record {
          opens = created;
          end = end;
          created = c;
          expires = rw (sym same) e;
          unexpired = unexpired;
          opened = opened;
        }

pub is_acceptable_sound :
    (now : ℕ) (spec : SigSpec)
    → is_acceptable now spec ≡ true
    → (spec.params.tag ≡ some (codes "web-bot-auth")) × IsCurrent now spec × CoversTarget spec
unfolding is_acceptable covers_target
is_acceptable_sound now spec h =
    let fresh : is_fresh_if now spec.params.created spec.params.expires ≡ true = ground arith in
    let authority : has spec.components (codes "@authority") ≡ true = ground arith in
    let target : has spec.components (codes "@target-uri") ≡ true = ground arith in
    (
      is_text_sound spec.params.tag (codes "web-bot-auth") (ground arith),
      is_fresh_if-IsCurrent now spec fresh,
      (
        (has_iff spec.components (codes "@authority")).0 authority,
        (has_iff spec.components (codes "@target-uri")).0 target,
      ),
    )

pub or_default-true : (o : Option Bool) → or_default o false ≡ true → o ≡ some true
or_default-true none h = cc
or_default-true (some verdict) h = cc
