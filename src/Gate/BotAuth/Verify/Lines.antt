-- ===== src/Gate/BotAuth/Verify/Lines.antt =====
-- The lines of a signature base (webbotauth.ts) have no line break.
use verivyx_monorepo.Prelude.{
  ℕ, ◌≡◌, refl, inl, inr, sym, true, Option, none, some, [], ◌∷◌, ◌++◌, Text, codes, text_eq,
  starts_with, Bool-cases, arith,
}
use verivyx_monorepo.Prelude.Parse.{trim, trim_start, trim_end, trim_end_step, to_lower}
use verivyx_monorepo.Prelude.Parse.Laws.{lacks}
use verivyx_monorepo.Gate.Detect.{lower_case}
use verivyx_monorepo.Gate.BotAuth.Fields.{SigSpec}
use verivyx_monorepo.Gate.BotAuth.Keys.{Url}
use verivyx_monorepo.Gate.BotAuth.Verify.{
  authority_line, target_line, agent_line, line_of, params_line,
}

-- A line break, which no header and no URL contains.
abbrev pub line_break : ℕ
line_break = 10

abbrev pub IsLine : Text → Type 0
IsLine t = lacks line_break t ≡ true

abbrev pub target_mark : Text
target_mark = codes "\"@target-uri\": "

abbrev pub authority_mark : Text
authority_mark = codes "\"@authority\": "

-- A line that starts like the target's is the target's, and likewise the authority's.
abbrev pub Says : Url → Text → Type 0
Says url line =
    (starts_with line target_mark ≡ true → line ≡ target_line url)
    × (starts_with line authority_mark ≡ true → line ≡ authority_line url)

pub params_line-Says : (url : Url) (spec : SigSpec) → Says url (params_line spec)
unfolding params_line starts_with
params_line-Says url spec = (λ h. cc, λ h. cc)

pub line_of-Says :
    (url : Url) (agent : Option Text) (comp line : Text)
    → line_of url agent comp ≡ some line
    → Says url line
unfolding line_of starts_with
line_of-Says url agent comp line h = elim (Bool-cases (text_eq comp (codes "@authority"))) [
  | inl authority ↦
      let same : authority_line url ≡ line = ground arith in
      (λ r. absurd (cc (rw (sym same) at r)), λ r. sym same)
  | inr other ↦ elim (Bool-cases (text_eq comp (codes "@target-uri"))) [
    | inl target ↦
        let same : target_line url ≡ line = ground arith in
        (λ r. sym same, λ r. absurd (cc (rw (sym same) at r)))
    | inr third ↦ by_agent agent (ground arith)
  ]
]
  where
    by_agent : (o : Option Text) → agent_line o ≡ some line → Says url line
    by_agent none r = absurd (cc r)
    by_agent (some v) r =
        let same : codes "\"signature-agent\": " ++ trim v ≡ line = cc in
        (λ q. absurd (cc (rw (sym same) at q)), λ q. absurd (cc (rw (sym same) at q)))

lower_case-IsLine : (t : Text) → IsLine t → IsLine (lower_case t)
unfolding lower_case to_lower
lower_case-IsLine [] h = refl
lower_case-IsLine (c ∷ t) h = ground (arith, lower_case-IsLine t)

trim_start-IsLine : (t : Text) → IsLine t → IsLine (trim_start t)
unfolding trim_start
trim_start-IsLine [] h = refl
trim_start-IsLine (c ∷ t) h = ground (arith, trim_start-IsLine t)

trim_end_step-IsLine : (c : ℕ) (t : Text) → IsLine (c ∷ t) → IsLine (trim_end_step c t)
unfolding trim_end_step
trim_end_step-IsLine c [] h = ground arith
trim_end_step-IsLine c (d ∷ t) h = h

trim_end-IsLine : (t : Text) → IsLine t → IsLine (trim_end t)
unfolding trim_end
trim_end-IsLine [] h = refl
trim_end-IsLine (c ∷ t) h = trim_end_step-IsLine c (trim_end t) (ground (arith, trim_end-IsLine t))

trim-IsLine : (t : Text) → IsLine t → IsLine (trim t)
unfolding trim
trim-IsLine t h = trim_end-IsLine (trim_start t) (trim_start-IsLine t h)

-- Texts of the Fetch API: no line break in a URL or a header.
pub record IsPlain (url : Url) (agent : Option Text) (spec : SigSpec) : Type 0 where
  pub host : IsLine url.host
  pub href : IsLine url.href
  pub agent_plain : (v : Text) → agent ≡ some v → IsLine v
  pub segment : IsLine spec.param_segment

pub line_of-IsLine :
    (url : Url) (agent : Option Text) (spec : SigSpec) (comp line : Text)
    → IsPlain url agent spec
    → line_of url agent comp ≡ some line
    → IsLine line
unfolding line_of
line_of-IsLine url agent spec comp line plain h =
    elim (Bool-cases (text_eq comp (codes "@authority"))) [
      | inl authority ↦
          let same : authority_line url ≡ line = ground arith in
          rw (sym same) (lower_case-IsLine url.host plain.host)
      | inr other ↦ elim (Bool-cases (text_eq comp (codes "@target-uri"))) [
        | inl target ↦ let same : target_line url ≡ line = ground arith in rw (sym same) plain.href
        | inr third ↦ by_agent agent refl (ground arith)
      ]
    ]
  where
    by_agent : (o : Option Text) → agent ≡ o → agent_line o ≡ some line → IsLine line
    by_agent none given r = absurd (cc r)
    by_agent (some v) given r =
        let same : codes "\"signature-agent\": " ++ trim v ≡ line = cc in
        rw (sym same) (trim-IsLine v (plain.agent_plain v given))
