-- ===== src/Gate/BotAuth/Fields/Laws.antt =====
-- Proofs about printing and parsing the components of a signature.
use verivyx_monorepo.Prelude.{
  ℕ, ◌≡◌, refl, sym, ap, ◌∙◌, true, false, not, some, List, [], ◌∷◌, ◌++◌, Text, codes, ◌==◌, map,
  All, arith,
}
use verivyx_monorepo.Prelude.Parse.{trim, trim_start, trim_end, trim_end_step, is_space}
use verivyx_monorepo.Prelude.Parse.Laws.{lacks}
use verivyx_monorepo.Prelude.Decimal.Laws.{all-append}
use verivyx_monorepo.Gate.BotAuth.Items.{
  split_from, parts_of, split_top_level, cut_at, quoted, with_item, add_item, items_of,
  parse_inner_list,
}
use verivyx_monorepo.Gate.BotAuth.Fields.{
  Builtins, ParamMap, parse_params, spec_of, inner_and_params, parse_spec,
}
use verivyx_monorepo.Gate.BotAuth.Verify.{quote, inner_list}

-- Nothing cuts inside a quote.
split_from-quoted :
    (sep depth : ℕ) (w t v : Text) (ps : List Text)
    → lacks b'"' w ≡ true
    → split_from sep depth false t ≡ some (v ∷ ps)
    → split_from sep depth true (w ++ b'"' ∷ t) ≡ some ((w ++ b'"' ∷ v) ∷ ps)
unfolding split_from
split_from-quoted sep depth [] t v ps h r = rw r refl
split_from-quoted sep depth (c ∷ w) t v ps h r =
    let plain : (c == b'"') ≡ false = ground arith in
    let later : lacks b'"' w ≡ true = ground arith in
    rw (plain, split_from-quoted sep depth w t v ps later r) refl

split_from-quote :
    (w t v : Text) (ps : List Text)
    → lacks b'"' w ≡ true
    → split_from b' ' 0 false t ≡ some (v ∷ ps)
    → split_from b' ' 0 false (b'"' ∷ w ++ b'"' ∷ t) ≡ some ((b'"' ∷ w ++ b'"' ∷ v) ∷ ps)
unfolding split_from
split_from-quote w t v ps h r = rw (split_from-quoted b' ' 0 w t v ps h r) refl

append-mark : (w t : Text) → (w ++ codes "\"") ++ t ≡ w ++ b'"' ∷ t
append-mark [] t = refl
append-mark (c ∷ w) t = ap (λ r. c ∷ r) (append-mark w t)

split-inner_list :
    (c : Text) (cs : List Text)
    → All (λ w. lacks b'"' w ≡ true) (c ∷ cs)
    → split_from b' ' 0 false (inner_list (c ∷ cs)) ≡ some (map quote (c ∷ cs))
unfolding inner_list split_from
split-inner_list c [] h = split_from-quote c [] [] [] h.0 refl
split-inner_list c (d ∷ cs) h =
    let rest = split-inner_list d cs h.1 in
    ap (λ r. split_from b' ' 0 false (b'"' ∷ r)) (append-mark c (b' ' ∷ inner_list (d ∷ cs)))
    ∙ split_from-quote c (b' ' ∷ inner_list (d ∷ cs)) [] (map quote (d ∷ cs)) h.0 (rw rest refl)

trim_end-append :
    (w t : Text) (x : ℕ) → trim_end (x ∷ t) ≡ x ∷ t → trim_end (w ++ x ∷ t) ≡ w ++ x ∷ t
unfolding trim_end trim_end_step
trim_end-append [] t x h = h
trim_end-append (c ∷ []) t x h = rw h refl
trim_end-append (c ∷ d ∷ w) t x h = rw (trim_end-append (d ∷ w) t x h) refl

trim_end-quote : (w : Text) → trim_end (w ++ b'"' ∷ []) ≡ w ++ b'"' ∷ []
unfolding trim_end trim_end_step is_space
trim_end-quote w = trim_end-append w [] b'"' refl

trim-quoted : (w : Text) → trim (b'"' ∷ w ++ b'"' ∷ []) ≡ b'"' ∷ w ++ b'"' ∷ []
unfolding trim trim_start is_space
trim-quoted w = trim_end-quote (b'"' ∷ w)

cut_at-lacks : (sep : ℕ) (w t : Text) → lacks sep w ≡ true → cut_at sep (w ++ sep ∷ t) ≡ some (w, t)
unfolding cut_at
cut_at-lacks sep [] t h = ground arith
cut_at-lacks sep (c ∷ w) t h =
    let other : (c == sep) ≡ false = ground arith in
    let later : lacks sep w ≡ true = ground arith in rw (other, cut_at-lacks sep w t later) refl

quoted-quote : (w : Text) → lacks b'"' w ≡ true → quoted (quote w) ≡ some w
unfolding quoted
quoted-quote w h = rw (cut_at-lacks b'"' w [] h) refl

items_of-quotes :
    (cs : List Text) → All (λ w. lacks b'"' w ≡ true) cs → items_of (map quote cs) ≡ some cs
unfolding items_of add_item
items_of-quotes [] h = refl
items_of-quotes (c ∷ cs) h =
    ap (λ t. add_item t (items_of (map quote cs))) (trim-quoted c)
    ∙ ap (λ o. with_item o (items_of (map quote cs))) (quoted-quote c h.0)
    ∙ ap (with_item (some c)) (items_of-quotes cs h.1)

parse_inner_list-print :
    (cs : List Text)
    → All (λ w. lacks b'"' w ≡ true) cs
    → parse_inner_list (inner_list cs) ≡ some cs
unfolding parse_inner_list split_top_level inner_list
parse_inner_list-print [] h = refl
parse_inner_list-print (c ∷ []) h =
    ap (λ o. items_of (parts_of o)) (split-inner_list c [] h) ∙ items_of-quotes (c ∷ []) h
parse_inner_list-print (c ∷ d ∷ cs) h =
    ap (λ o. items_of (parts_of o)) (split-inner_list c (d ∷ cs) h) ∙ items_of-quotes (c ∷ d ∷ cs) h

inner_list_quote : (c : Text) (cs : List Text) → (t : Text) × (inner_list (c ∷ cs) ≡ b'"' ∷ t)
unfolding inner_list
inner_list_quote c [] = (c ++ codes "\"", refl)
inner_list_quote c (d ∷ cs) = ((c ++ codes "\"") ++ b' ' ∷ inner_list (d ∷ cs), refl)

trim_end-inner_list :
    (c : Text) (cs : List Text) → trim_end (inner_list (c ∷ cs)) ≡ inner_list (c ∷ cs)
unfolding inner_list
trim_end-inner_list c [] = trim_end-quote (b'"' ∷ c)
trim_end-inner_list c (d ∷ cs) =
    let (t, shape) = inner_list_quote d cs in
    let rest : trim_end (b'"' ∷ t) ≡ b'"' ∷ t =
      ap trim_end (sym shape) ∙ trim_end-inner_list d cs ∙ shape in
    ap (λ r. trim_end (quote c ++ b' ' ∷ r)) shape
    ∙ trim_end-append (quote c) (b'"' ∷ t) b' ' (trim_end-append (b' ' ∷ []) t b'"' rest)
    ∙ ap (λ r. quote c ++ b' ' ∷ r) (sym shape)

trim_start-quote : (t : Text) → trim_start (b'"' ∷ t) ≡ b'"' ∷ t
unfolding trim_start is_space
trim_start-quote t = refl

trim-inner_list : (cs : List Text) → trim (inner_list cs) ≡ inner_list cs
unfolding trim inner_list
trim-inner_list [] = refl
trim-inner_list (c ∷ cs) =
    let (t, shape) = inner_list_quote c cs in
    ap trim_end (ap trim_start shape ∙ trim_start-quote t ∙ sym shape) ∙ trim_end-inner_list c cs

lacks-quote :
    (mark : ℕ) (w : Text)
    → (b'"' == mark) ≡ false
    → lacks mark w ≡ true
    → lacks mark (quote w) ≡ true
lacks-quote mark w no_quote h =
    rw no_quote (all-append (λ x. not (x == mark)) w (codes "\"") h (rw no_quote refl))

-- A mark that is in none of the components.
pub lacks-inner_list :
    (mark : ℕ) (cs : List Text)
    → (b'"' == mark) ≡ false
    → (b' ' == mark) ≡ false
    → All (λ w. lacks mark w ≡ true) cs
    → lacks mark (inner_list cs) ≡ true
unfolding inner_list
lacks-inner_list mark [] no_quote no_space h = refl
lacks-inner_list mark (c ∷ []) no_quote no_space h = lacks-quote mark c no_quote h.0
lacks-inner_list mark (c ∷ d ∷ cs) no_quote no_space h =
    all-append (λ x. not (x == mark)) (quote c) (b' ' ∷ inner_list (d ∷ cs))
      (lacks-quote mark c no_quote h.0)
      (rw no_space (lacks-inner_list mark (d ∷ cs) no_quote no_space h.1))

-- Printing components with a parameter segment after them, and parsing the text, gives them back,
-- with the segment as it is, and its parameters; provided that no component has a
-- quote or a closing parenthesis.
pub parse_spec-print :
    (js : Builtins) (cs : List Text) (segment : Text) (params : ParamMap)
    → All (λ w. lacks b'"' w ≡ true) cs
    → All (λ w. lacks b')' w ≡ true) cs
    → parse_params js segment ≡ some params
    → parse_spec js (b'(' ∷ inner_list cs ++ b')' ∷ segment)
      ≡ some (record { components = cs; param_segment = segment; params = params })
unfolding parse_spec inner_and_params
parse_spec-print js cs segment params quotes parens parsed =
    ap (inner_and_params js)
      (cut_at-lacks b')' (inner_list cs) segment (lacks-inner_list b')' cs refl refl parens))
    ∙ ap (λ t. spec_of segment (parse_inner_list t) (parse_params js segment)) (trim-inner_list cs)
    ∙ ap (λ o. spec_of segment o (parse_params js segment)) (parse_inner_list-print cs quotes)
    ∙ ap (spec_of segment (some cs)) parsed
