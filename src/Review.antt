-- ===== src/Review.antt =====
-- The gate of a review: `ParseFindings` and `Blocking` of internal/review/review.go. Decoding the
-- JSON of an object is a parameter; a rubric and the acceptances are maps.
pub mod Gate
mod Tests
use cobalt_dingo.Prelude.{
  ℕ, suc, Bool, true, false, not, Option, none, some, List, [], ◌∷◌, String, str_eq, ltb, ◌==◌,
  if◌then◌else◌, Result, ok, err, ◌>>=◌,
}
use cobalt_dingo.Prelude.Text.{Text, is_empty_text, trim_space}
use cobalt_dingo.Words.{trim_str}

pub data Severity : Type 0 where
  info low medium high critical : Severity

abbrev pub rank : Severity → ℕ
rank info = 0
rank low = 1
rank medium = 2
rank high = 3
rank critical = 4

pub record Rule : Type 0 where
  pub id : String
  pub severity : Severity
  pub title : String

pub record Rubric : Type 0 where
  pub rules : String → Option Rule

pub record Finding : Type 0 where
  pub rule_id : String
  pub file : String
  pub line : ℕ
  pub summary : String
  pub evidence : String
  pub severity : Severity
  pub title : String

pub record Report : Type 0 where
  pub findings : List Finding
  pub reviewed : Bool

pub data ReviewError : Type 0 where
  no_output no_object no_findings : ReviewError
  not_decoded : String → ReviewError
  no_rule_id : ℕ → ReviewError
  unknown_rule no_file no_summary : ℕ → String → ReviewError

-- What is left of a text once everything after the last "}" is cut off.
unfoldable pub up_to_brace : Text → Option Text
up_to_brace [] = none
up_to_brace (c ∷ cs) = elim (up_to_brace cs) [
  | some rest ↦ some (c ∷ rest)
  | none ↦ if c == b'}' then some (c ∷ []) else none
]

-- `jsonObject.Find`: from the first "{" to the last "}" that follows it.
unfoldable pub find_object : Text → Option Text
find_object [] = none
find_object (c ∷ cs) =
    let rest = find_object cs in
    if c == b'{' then elim (up_to_brace cs) [ none ↦ none | some t ↦ some (c ∷ t) ] else rest

-- A finding whose rule was looked up: severity and title are those of the rubric.
abbrev pub grade : ℕ → Finding → Option Rule → Result ReviewError Finding
grade i f none = err (unknown_rule i f.rule_id)
grade i f (some rule) =
    if str_eq (trim_str f.file) ""
    then err (no_file i f.rule_id)
    else if str_eq (trim_str f.summary) ""
    then err (no_summary i f.rule_id)
    else ok (record f { severity = rule.severity; title = rule.title })

abbrev pub grade_named : Rubric → ℕ → Finding → Result ReviewError Finding
grade_named rubric i f =
    if str_eq f.rule_id "" then err (no_rule_id i) else grade i f (rubric.rules f.rule_id)

-- The loop over the findings, the first of which has the given number.
unfoldable pub grade_all : Rubric → ℕ → List Finding → Result ReviewError (List Finding)
grade_all rubric i [] = ok []
grade_all rubric i (f ∷ findings) = grade_named rubric i f >>= λ graded.
    grade_all rubric (suc i) findings >>= λ rest. ok (graded ∷ rest)

abbrev pub grade_report : Rubric → Option (List Finding) → Result ReviewError Report
grade_report rubric none = err no_findings
grade_report rubric (some findings) =
    grade_all rubric 0 findings >>= λ graded. ok (record { findings = graded; reviewed = true })

abbrev pub decoded : Rubric → Result String (Option (List Finding)) → Result ReviewError Report
decoded rubric (err e) = err (not_decoded e)
decoded rubric (ok wire) = grade_report rubric wire

abbrev pub decode_object :
    (Text → Result String (Option (List Finding)))
    → Rubric
    → Option Text
    → Result ReviewError Report
decode_object decode rubric none = err no_object
decode_object decode rubric (some obj) = decoded rubric (decode obj)

-- `ParseFindings`; a missing list of findings is `none`.
unfoldable pub parse_findings :
    (Text → Result String (Option (List Finding))) → Text → Rubric → Result ReviewError Report
parse_findings decode raw rubric =
    if is_empty_text (trim_space raw)
    then err no_output
    else decode_object decode rubric (find_object raw)

abbrev pub is_accepted : Option String → Bool
is_accepted none = false
is_accepted (some why) = true

abbrev pub blocks : Severity → (String → Option String) → Finding → Bool
blocks threshold accepted f =
    if ltb (rank f.severity) (rank threshold)
    then false
    else if is_accepted (accepted f.rule_id)
    then false
    else true

unfoldable pub blocking_of : List Finding → Severity → (String → Option String) → List Finding
blocking_of [] threshold accepted = []
blocking_of (f ∷ findings) threshold accepted =
    let rest = blocking_of findings threshold accepted in
    if blocks threshold accepted f then f ∷ rest else rest

-- `Blocking`
abbrev pub blocking : Report → Severity → (String → Option String) → List Finding
blocking rep = blocking_of rep.findings
