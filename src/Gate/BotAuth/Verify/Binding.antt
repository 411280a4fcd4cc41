-- ===== src/Gate/BotAuth/Verify/Binding.antt =====
-- Proofs about what a signature base says of the request it was built for.
use verivyx_monorepo.Prelude.{
  ◌≡◌, refl, inl, inr, sym, ap, ◌∙◌, true, not, Option, none, some, List, [], ◌∷◌, ◌++◌, Text,
  codes, text_eq, text_eq_iff, starts_with, Listed, ◌==◌, All, Any, Bool-cases, arith,
}
use verivyx_monorepo.Prelude.Parse.{split}
use verivyx_monorepo.Prelude.Parse.Laws.{join, split-lacks, split-append}
use verivyx_monorepo.Prelude.Decimal.Laws.{all-append}
use verivyx_monorepo.Gate.Detect.{lower_case}
use verivyx_monorepo.Gate.BotAuth.Fields.{SigSpec}
use verivyx_monorepo.Gate.BotAuth.Fields.Laws.{lacks-inner_list}
use verivyx_monorepo.Gate.BotAuth.Keys.{Url}
use verivyx_monorepo.Gate.BotAuth.Verify.{
  authority_line, target_line, line_of, cons_line, lines_of, params_line, joined,
  build_signature_base, inner_list,
}
use verivyx_monorepo.Gate.BotAuth.Verify.Freshness.{CoversTarget}
use verivyx_monorepo.Gate.BotAuth.Verify.Lines.{
  line_break, IsLine, target_mark, authority_mark, Says, params_line-Says, line_of-Says, IsPlain,
  line_of-IsLine,
}

-- Which names a component can have.
line_of-name :
    (url : Url) (agent : Option Text) (comp line : Text)
    → line_of url agent comp ≡ some line
    → IsLine comp
unfolding line_of
line_of-name url agent comp line h = elim (Bool-cases (text_eq comp (codes "@authority"))) [
  | inl authority ↦ rw ((text_eq_iff comp (codes "@authority")).0 authority) refl
  | inr other ↦ elim (Bool-cases (text_eq comp (codes "@target-uri"))) [
    | inl target ↦ rw ((text_eq_iff comp (codes "@target-uri")).0 target) refl
    | inr third ↦ elim (Bool-cases (text_eq comp (codes "signature-agent"))) [
      | inl agent_name ↦ rw ((text_eq_iff comp (codes "signature-agent")).0 agent_name) refl
      | inr fourth ↦ ground arith
    ]
  ]
]

-- The lines of a base, the last one from the parameters.
record AreLines (url : Url) (agent : Option Text) (spec : SigSpec) (comps : List Text)
    (lines : List Text) : Type 0 where
  plain : All IsLine lines
  says : All (Says url) lines
  target : Listed (codes "@target-uri") comps → Any (λ l. l ≡ target_line url) lines
  authority : Listed (codes "@authority") comps → Any (λ l. l ≡ authority_line url) lines
  split_back : split line_break (join line_break lines) ≡ lines

cons_line_inv :
    (o : Option Text) (os : Option (List Text)) (lines : List Text)
    → cons_line o os ≡ some lines
    → (l : Text) × (ls : List Text) × (o ≡ some l) × (os ≡ some ls) × (lines ≡ l ∷ ls)
cons_line_inv none os lines h = absurd (cc h)
cons_line_inv (some l) none lines h = absurd (cc h)
cons_line_inv (some l) (some ls) lines h = (l, ls, refl, refl, cc)

split-cons :
    (l : Text) (ls : List Text)
    → IsLine l
    → split line_break (join line_break ls) ≡ ls
    → split line_break (join line_break (l ∷ ls)) ≡ l ∷ ls
split-cons l [] plain back = split-lacks line_break l plain
split-cons l (m ∷ ls) plain back =
    split-append line_break l (join line_break (m ∷ ls)) plain ∙ ap (λ r. l ∷ r) back

line_of-target :
    (url : Url) (agent : Option Text) (line : Text)
    → line_of url agent (codes "@target-uri") ≡ some line
    → line ≡ target_line url
unfolding line_of text_eq
line_of-target url agent line h = cc

line_of-authority :
    (url : Url) (agent : Option Text) (line : Text)
    → line_of url agent (codes "@authority") ≡ some line
    → line ≡ authority_line url
unfolding line_of text_eq
line_of-authority url agent line h = cc

lines_of-AreLines :
    (url : Url) (agent : Option Text) (spec : SigSpec) (last : Text) (comps lines : List Text)
    → IsPlain url agent spec
    → IsLine last
    → Says url last
    → lines_of url agent last comps ≡ some lines
    → AreLines url agent spec comps lines
unfolding lines_of
lines_of-AreLines url agent spec last [] lines plain last_plain last_says h =
    let same : last ∷ [] ≡ lines = cc in
    rw (sym same) (record {
      plain = (last_plain, tt);
      says = (last_says, tt);
      target = λ h. absurd h;
      authority = λ h. absurd h;
      split_back = split-lacks line_break last last_plain;
    })
lines_of-AreLines url agent spec last (comp ∷ comps) lines plain last_plain last_says h =
    let (l, ls, line, others, same) =
      cons_line_inv (line_of url agent comp) (lines_of url agent last comps) lines h in
    let rest = lines_of-AreLines url agent spec last comps ls plain last_plain last_says others in
    let l_plain = line_of-IsLine url agent spec comp l plain line in
    rw same (record {
      plain = (l_plain, rest.plain);
      says = (line_of-Says url agent comp l line, rest.says);
      target = λ c. elim c [
        | inl here ↦ inl (line_of-target url agent l (rw here at line))
        | inr there ↦ inr (rest.target there)
      ];
      authority = λ c. elim c [
        | inl here ↦ inl (line_of-authority url agent l (rw here at line))
        | inr there ↦ inr (rest.authority there)
      ];
      split_back = split-cons l ls l_plain rest.split_back;
    })

lines_of-names :
    (url : Url) (agent : Option Text) (last : Text) (comps lines : List Text)
    → lines_of url agent last comps ≡ some lines
    → All IsLine comps
unfolding lines_of
lines_of-names url agent last [] lines h = tt
lines_of-names url agent last (comp ∷ comps) lines h =
    let (l, ls, line, others, same) =
      cons_line_inv (line_of url agent comp) (lines_of url agent last comps) lines h in
    (line_of-name url agent comp l line, lines_of-names url agent last comps ls others)

append-IsLine : (s t : Text) → IsLine s → IsLine t → IsLine (s ++ t)
append-IsLine = all-append (λ c. not (c == line_break))

params_line-IsLine :
    (spec : SigSpec)
    → All IsLine spec.components
    → IsLine spec.param_segment
    → IsLine (params_line spec)
unfolding params_line
params_line-IsLine spec names segment =
    append-IsLine (inner_list spec.components ++ codes ")") spec.param_segment
      (append-IsLine (inner_list spec.components) (codes ")")
        (lacks-inner_list line_break spec.components refl refl names) refl)
      segment

base-AreLines :
    (url : Url) (agent : Option Text) (spec : SigSpec) (base : Text)
    → IsPlain url agent spec
    → build_signature_base url agent spec ≡ some base
    → AreLines url agent spec spec.components (split line_break base)
unfolding build_signature_base
base-AreLines url agent spec base plain h =
    by_lines (lines_of url agent (params_line spec) spec.components) refl h
  where
    by_lines :
        (o : Option (List Text))
        → lines_of url agent (params_line spec) spec.components ≡ o
        → joined o ≡ some base
        → AreLines url agent spec spec.components (split line_break base)
    by_lines none built r = absurd (cc r)
    by_lines (some lines) built r =
        let names = lines_of-names url agent (params_line spec) spec.components lines built in
        let are =
          lines_of-AreLines url agent spec (params_line spec) spec.components lines plain
            (params_line-IsLine spec names plain.segment) (params_line-Says url spec) built in
        let text : join line_break lines ≡ base = cc in
        let split_base : split line_break base ≡ lines =
          ap (split line_break) (sym text) ∙ are.split_back in
        rw split_base are

-- A line of one kind of the one request is the line of that kind of the other.
line_among :
    (lines : List Text) (line other mark : Text)
    → starts_with line mark ≡ true
    → Any (λ l. l ≡ line) lines
    → All (λ l. starts_with l mark ≡ true → l ≡ other) lines
    → line ≡ other
line_among [] line other mark starts h all_say = absurd h
line_among (l ∷ lines) line other mark starts (inl here) all_say =
    sym here ∙ all_say.0 (rw here starts)
line_among (l ∷ lines) line other mark starts (inr there) all_say =
    line_among lines line other mark starts there all_say.1

Says-target :
    (url : Url) (lines : List Text)
    → All (Says url) lines
    → All (λ l. starts_with l target_mark ≡ true → l ≡ target_line url) lines
Says-target url [] h = tt
Says-target url (l ∷ lines) h = (h.0.0, Says-target url lines h.1)

Says-authority :
    (url : Url) (lines : List Text)
    → All (Says url) lines
    → All (λ l. starts_with l authority_mark ≡ true → l ≡ authority_line url) lines
Says-authority url [] h = tt
Says-authority url (l ∷ lines) h = (h.0.1, Says-authority url lines h.1)

-- The base that a signature was made over binds it to its target: if two requests, each with its
-- own covered components (of which the first has the authority and the target) and
-- parameters, have the same signature base, they have the same authority and the same target URI;
-- provided that their URLs and headers contain no line break.
pub build_signature_base-binds :
    (u v : Url) (a b : Option Text) (s t : SigSpec) (base : Text)
    → IsPlain u a s
    → IsPlain v b t
    → CoversTarget s
    → build_signature_base u a s ≡ some base
    → build_signature_base v b t ≡ some base
    → (lower_case u.host ≡ lower_case v.host) × (u.href ≡ v.href)
unfolding starts_with authority_line
build_signature_base-binds u v a b s t base plain_u plain_v covers built_u built_v =
    let mine = base-AreLines u a s base plain_u built_u in
    let other = base-AreLines v b t base plain_v built_v in
    let lines = split line_break base in
    let authority : authority_line u ≡ authority_line v =
      line_among lines (authority_line u) (authority_line v) authority_mark refl
        (mine.authority covers.0) (Says-authority v lines other.says) in
    let target : target_line u ≡ target_line v =
      line_among lines (target_line u) (target_line v) target_mark refl (mine.target covers.1)
        (Says-target v lines other.says) in
    (cc, cc)
