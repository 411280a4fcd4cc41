-- ===== src/Gate/BotAuth/Fields.antt =====
-- webbotauth.ts: the structured fields of the Signature-Input and Signature headers.
pub mod Laws
use verivyx_monorepo.Prelude.{
  ℕ, zero, suc, ◌+◌, ◌-◌, ◌%◌, Bool, true, false, not, ◌&&◌, ◌||◌, Option, none, some, List, [],
  ◌∷◌, ◌++◌, Text, codes, text_eq, leb, ltb, ◌==◌, length, all, any, map, if◌then◌else◌,
}
use mathlib.Core.Option
use verivyx_monorepo.Prelude.Int.{ℤ}
use verivyx_monorepo.Prelude.Parse.{trim, cons_head}
use verivyx_monorepo.Prelude.Maps.{map_set}
use verivyx_monorepo.Gate.BotAuth.Items.{
  next_depth, split_from, parts_of, split_top_level, is_alpha, token_marks, is_token_char, is_token,
  cut_at, quoted, with_item, add_item, items_of, parse_inner_list,
}

-- What JavaScript gives: `Number` of the digits of an integer (`none` is Infinity), and `atob`
-- (`none` if it throws).
pub record Builtins : Type 0 where
  pub number : Text → Option ℤ
  pub atob : Text → Option (List ℕ)

pub record ParamMap : Type 0 where
  pub created : Option ℤ
  pub expires : Option ℤ
  pub keyid : Option Text
  pub tag : Option Text
  pub alg : Option Text
  pub nonce : Option Text

pub record SigSpec : Type 0 where
  pub components : List Text
  pub param_segment : Text
  pub params : ParamMap

abbrev pub no_params : ParamMap
no_params = record {
  created = none;
  expires = none;
  keyid = none;
  tag = none;
  alg = none;
  nonce = none;
}

unfoldable pub assign_string_param : ParamMap → Text → Text → ParamMap
assign_string_param p key val =
    if text_eq key (codes "keyid")
    then record p { keyid = some val }
    else if text_eq key (codes "tag")
    then record p { tag = some val }
    else if text_eq key (codes "alg")
    then record p { alg = some val }
    else if text_eq key (codes "nonce")
    then record p { nonce = some val }
    else p

unfoldable pub assign_number_param : ParamMap → Text → ℤ → ParamMap
assign_number_param p key val =
    if text_eq key (codes "created")
    then record p { created = some val }
    else if text_eq key (codes "expires")
    then record p { expires = some val }
    else p

-- The text without its first and its last code unit, if both are the mark.
abbrev without_last : ℕ → Text → Option Text
without_last mark [] = none
without_last mark (c ∷ []) = if c == mark then some [] else none
without_last mark (c ∷ d ∷ t) = Option.map (λ r. c ∷ r) (without_last mark (d ∷ t))

unfoldable pub between_marks : ℕ → Text → Option Text
between_marks mark [] = none
between_marks mark (c ∷ t) = if c == mark then without_last mark t else none

-- `/^-?\d+$/`.
abbrev all_digits : Text → Bool
all_digits [] = false
all_digits (c ∷ t) = all (λ d. leb 48 d && leb d 57) (c ∷ t)

abbrev is_integer : Text → Bool
is_integer [] = false
is_integer (c ∷ t) = if c == b'-' then all_digits t else all_digits (c ∷ t)

abbrev assign_number : ParamMap → Text → Option ℤ → Option ParamMap
unfolding assign_number_param
assign_number p key none = none
assign_number p key (some n) = some (assign_number_param p key n)

abbrev assign_string : ParamMap → Text → Option Text → Option ParamMap
unfolding assign_string_param
assign_string p key none = none
assign_string p key (some val) = some (assign_string_param p key val)

abbrev quote_first : Text → Bool
quote_first [] = false
quote_first (c ∷ t) = c == b'"'

abbrev assign_value : Builtins → ParamMap → Text → Text → Option ParamMap
unfolding between_marks assign_number assign_string
assign_value js p key val =
    if quote_first val
    then assign_string p key (between_marks b'"' val)
    else if is_integer val
    then assign_number p key (js.number val)
    else assign_string p key (some val)

abbrev assign_pair : Builtins → ParamMap → Option (Text × Text) → Option ParamMap
unfolding is_token assign_value
assign_pair js p none = none
assign_pair js p (some (key, val)) =
    if is_token (trim key) then assign_value js p (trim key) (trim val) else none

-- One part of the parameters; an empty one is skipped.
abbrev assign_part : Builtins → ParamMap → Text → Option ParamMap
unfolding cut_at assign_pair
assign_part js p [] = some p
assign_part js p (c ∷ t) = assign_pair js p (cut_at b'=' (c ∷ t))

unfoldable pub assign_parts : Builtins → List Text → Option ParamMap → Option ParamMap
unfolding assign_part
assign_parts js [] p = p
assign_parts js (part ∷ parts) none = none
assign_parts js (part ∷ parts) (some p) = assign_parts js parts (assign_part js p (trim part))

abbrev after_trim : Builtins → Text → Option ParamMap
unfolding split_top_level assign_parts
after_trim js [] = some no_params
after_trim js (c ∷ t) =
    if c == b';' then assign_parts js (split_top_level t b';') (some no_params) else none

unfoldable pub parse_params : Builtins → Text → Option ParamMap
unfolding after_trim
parse_params js segment = after_trim js (trim segment)

abbrev spec_of : Text → Option (List Text) → Option ParamMap → Option SigSpec
spec_of segment (some components) (some params) =
    some (record { components = components; param_segment = segment; params = params })
spec_of segment _ _ = none

abbrev inner_and_params : Builtins → Option (Text × Text) → Option SigSpec
unfolding parse_inner_list parse_params
inner_and_params js none = none
inner_and_params js (some (inner, segment)) =
    spec_of segment (parse_inner_list (trim inner)) (parse_params js segment)

-- The value of a member of Signature-Input: `(...)` and parameters.
unfoldable pub parse_spec : Builtins → Text → Option SigSpec
unfolding cut_at inner_and_params
parse_spec js [] = none
parse_spec js (c ∷ t) = if c == b'(' then inner_and_params js (cut_at b')' t) else none

unfoldable pub base64_decode : Builtins → Text → Option (List ℕ)
base64_decode js input =
    let s = map (λ c. if c == b'-' then b'+' else if c == b'_' then b'/' else c) input in
    let pad = length s % 4 in
    if pad == 1
    then none
    else js.atob (if pad == 2 then s ++ codes "==" else if pad == 3 then s ++ codes "=" else s)

-- The value of a member of Signature: `:base64:`.
unfoldable pub parse_bytes : Builtins → Text → Option (List ℕ)
unfolding between_marks base64_decode
parse_bytes js value = elim (between_marks b':' value) [
  | none ↦ none
  | some b64 ↦ base64_decode js b64
]

module _ {V : Type 0} (value_of : Text → Option V) where
  abbrev keep_value : List (Text × V) → Text → Option V → Option (List (Text × V))
  unfolding map_set
  keep_value out label none = none
  keep_value out label (some v) = some (map_set out label v)

  abbrev add_pair : List (Text × V) → Option (Text × Text) → Option (List (Text × V))
  unfolding is_token keep_value
  add_pair out none = none
  add_pair out (some (label, value)) =
      if is_token (trim label) then keep_value out (trim label) (value_of (trim value)) else none

  -- One member of a dictionary; an empty one is skipped.
  abbrev pub add_member : List (Text × V) → Text → Option (List (Text × V))
  unfolding cut_at add_pair
  add_member out [] = some out
  add_member out (c ∷ t) = add_pair out (cut_at b'=' (c ∷ t))

  unfoldable pub members_of : List Text → Option (List (Text × V)) → Option (List (Text × V))
  unfolding add_member
  members_of [] out = out
  members_of (m ∷ ms) none = none
  members_of (m ∷ ms) (some out) = members_of ms (add_member out (trim m))

  abbrev unless_empty : Option (List (Text × V)) → Option (List (Text × V))
  unless_empty (some (e ∷ entries)) = some (e ∷ entries)
  unless_empty _ = none

  unfoldable pub parse_dictionary : Text → Option (List (Text × V))
  unfolding split_top_level members_of
  parse_dictionary raw = unless_empty (members_of (split_top_level raw b',') (some []))

unfoldable pub parse_signature_input : Builtins → Text → Option (List (Text × SigSpec))
unfolding parse_dictionary parse_spec
parse_signature_input js raw = parse_dictionary (parse_spec js) raw

unfoldable pub parse_signature_header : Builtins → Text → Option (List (Text × List ℕ))
unfolding parse_dictionary parse_bytes
parse_signature_header js raw = parse_dictionary (parse_bytes js) raw
