-- ===== src/Gate/Protect/Headers.antt =====
-- The header that attachPaymentResponse sets (index.ts).
use verivyx_monorepo.Prelude.{
  ◌≡◌, ◌∙◌, ap, sym, refl, inl, inr, true, false, Option, none, some, List, [], ◌∷◌, Text, text_eq,
  text_eq_iff, Bool-cases, if◌then◌else◌,
}
use verivyx_monorepo.Gate.Detect.{lower_case}
use verivyx_monorepo.Gate.Protect.{set_header}

-- The value of the first header of that name, compared without case.
abbrev pub header_of : Text → List (Text × Text) → Option Text
header_of name [] = none
header_of name (h ∷ hs) =
    let later = header_of name hs in
    if text_eq (lower_case h.0) (lower_case name) then some h.1 else later

text_eq_refl : (t : Text) → text_eq t t ≡ true
text_eq_refl t = (text_eq_iff t t).1 refl

header_of-skip :
    (name : Text) (h : Text × Text) (hs : List (Text × Text))
    → text_eq (lower_case h.0) (lower_case name) ≡ false
    → header_of name (h ∷ hs) ≡ header_of name hs
header_of-skip name h hs other = rw other

set_header-drop :
    (name value : Text) (h : Text × Text) (hs : List (Text × Text))
    → text_eq (lower_case h.0) (lower_case name) ≡ true
    → set_header name value (h ∷ hs) ≡ set_header name value hs
unfolding set_header
set_header-drop name value h hs same = rw same

set_header-keep :
    (name value : Text) (h : Text × Text) (hs : List (Text × Text))
    → text_eq (lower_case h.0) (lower_case name) ≡ false
    → set_header name value (h ∷ hs) ≡ h ∷ set_header name value hs
unfolding set_header
set_header-keep name value h hs other = rw other

pub header_of-set_header :
    (name value : Text) (headers : List (Text × Text))
    → header_of name (set_header name value headers) ≡ some value
unfolding set_header
header_of-set_header name value [] = rw (text_eq_refl (lower_case name))
header_of-set_header name value (h ∷ hs) =
    let before = header_of-set_header name value hs in
    elim (Bool-cases (text_eq (lower_case h.0) (lower_case name))) [
      | inl same ↦ ap (header_of name) (set_header-drop name value h hs same) ∙ before
      | inr other ↦
          ap (header_of name) (set_header-keep name value h hs other)
          ∙ header_of-skip name h (set_header name value hs) other
          ∙ before
    ]

-- The other headers are as before.
pub header_of-others :
    (name value other : Text) (headers : List (Text × Text))
    → text_eq (lower_case name) (lower_case other) ≡ false
    → header_of other (set_header name value headers) ≡ header_of other headers
unfolding set_header
header_of-others name value other [] apart = rw apart
header_of-others name value other (h ∷ hs) apart =
    let before = header_of-others name value other hs apart in
    elim (Bool-cases (text_eq (lower_case h.0) (lower_case name))) [
      | inl same ↦
          let named : lower_case h.0 ≡ lower_case name =
            (text_eq_iff (lower_case h.0) (lower_case name)).0 same in
          ap (header_of other) (set_header-drop name value h hs same)
          ∙ before
          ∙ sym (header_of-skip other h hs (rw named apart))
      | inr kept ↦
          ap (header_of other) (set_header-keep name value h hs kept)
          ∙ ap (λ later. if text_eq (lower_case h.0) (lower_case other) then some h.1 else later)
              before
    ]
