-- ===== src/Gate/BotAuth/Items.antt =====
-- webbotauth.ts: splitting a structured field at its top level, tokens and inner lists.
use verivyx_monorepo.Prelude.{
  ℕ, suc, ◌-◌, Bool, true, false, not, ◌&&◌, ◌||◌, Option, none, some, List, [], ◌∷◌, Text, codes,
  leb, ◌==◌, all, any, if◌then◌else◌,
}
use mathlib.Core.Option
use verivyx_monorepo.Prelude.Parse.{trim, cons_head}

abbrev pub next_depth : ℕ → ℕ → ℕ
next_depth c depth = if c == b'(' then suc depth else if c == b')' then depth - 1 else depth

-- The parts, or `none` in a quote that has no end.
unfoldable pub split_from : ℕ → ℕ → Bool → Text → Option (List Text)
split_from sep depth true [] = none
split_from sep depth false [] = some ([] ∷ [])
split_from sep depth true (c ∷ t) =
    Option.map (cons_head c) (split_from sep depth (not (c == b'"')) t)
split_from sep depth false (c ∷ t) =
    let cut = (c == sep) && (depth == 0) && not (c == b'"' || c == b'(' || c == b')') in
    let rest = split_from sep (next_depth c depth) (c == b'"') t in
    if cut then Option.map (λ parts. [] ∷ parts) rest else Option.map (cons_head c) rest

abbrev pub parts_of : Option (List Text) → List Text
parts_of none = []
parts_of (some parts) = parts

-- `splitTopLevel(s, sep)`.
unfoldable pub split_top_level : Text → ℕ → List Text
unfolding split_from
split_top_level s sep = parts_of (split_from sep 0 false s)

abbrev pub is_alpha : ℕ → Bool
is_alpha c = leb 65 c && leb c 90 || leb 97 c && leb c 122

abbrev pub token_marks : Text
token_marks = codes "!#$%&'*+-.^_`|~:/"

abbrev pub is_token_char : ℕ → Bool
is_token_char c = is_alpha c || leb 48 c && leb c 57 || any (λ m. m == c) token_marks

unfoldable pub is_token : Text → Bool
is_token [] = false
is_token (c ∷ t) = (is_alpha c || c == b'*') && all is_token_char t

-- `s.slice(0, s.indexOf(sep))` and `s.slice(s.indexOf(sep) + 1)`, `none` if it is not there.
unfoldable pub cut_at : ℕ → Text → Option (Text × Text)
cut_at sep [] = none
cut_at sep (c ∷ t) =
    let rest = Option.map (λ p. (c ∷ p.0, p.1)) (cut_at sep t) in
    if c == sep then some ([], t) else rest

-- `/^"([^"]*)"/`, the group.
unfoldable pub quoted : Text → Option Text
unfolding cut_at
quoted [] = none
quoted (c ∷ t) = if c == b'"' then Option.map (λ p. p.0) (cut_at b'"' t) else none

abbrev pub with_item : Option Text → Option (List Text) → Option (List Text)
with_item none items = none
with_item (some item) none = none
with_item (some item) (some items) = some (item ∷ items)

-- One item of the inner list; an empty one is skipped.
unfoldable pub add_item : Text → Option (List Text) → Option (List Text)
unfolding quoted
add_item [] items = items
add_item (c ∷ t) items = with_item (quoted (c ∷ t)) items

unfoldable pub items_of : List Text → Option (List Text)
items_of [] = some []
items_of (p ∷ ps) = add_item (trim p) (items_of ps)

unfoldable pub parse_inner_list : Text → Option (List Text)
unfolding items_of split_top_level
parse_inner_list [] = some []
parse_inner_list (c ∷ t) = items_of (split_top_level (c ∷ t) b' ')
