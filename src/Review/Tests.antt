-- ===== src/Review/Tests.antt =====
-- A finding under a rule that blocks, accepted, and what the model says of its severity.
use cobalt_dingo.Prelude.{
  ◌≡◌, ◌↔◌, refl, true, Option, none, some, List, [], ◌∷◌, String, str_eq, if◌then◌else◌, All,
  Result, ok,
}
use cobalt_dingo.Prelude.Text.{Text, is_space, trim_space, trim_left, trim_right}
use cobalt_dingo.Words.{trim_str, trim_str_left, trim_str_right}
use cobalt_dingo.Review.{
  info, high, Rule, Rubric, Finding, Report, up_to_brace, find_object, grade_all, parse_findings,
  blocking,
}
use cobalt_dingo.Review.Gate.{IsAnswered, parse_findings-blocking}

abbrev rule : Rule
rule = record { id = "R-SEC-01"; severity = high; title = "Secrets" }

abbrev rubric : Rubric
rubric = record { rules = λ id. if str_eq id "R-SEC-01" then some rule else none }

abbrev finding : Finding
finding = record {
  rule_id = "R-SEC-01";
  file = "a.go";
  line = 3;
  summary = "a key";
  evidence = "";
  severity = info;
  title = "";
}

abbrev accepted : String → Option String
accepted id = some "known"

abbrev decode : Text → Result String (Option (List Finding))
decode obj = ok (some (finding ∷ []))

abbrev raw : Text
raw = b'x' ∷ b'{' ∷ b'}' ∷ b'y' ∷ []

abbrev report : Report
report = record {
  findings = record finding { severity = high; title = "Secrets" } ∷ [];
  reviewed = true;
}

is_read : parse_findings decode raw rubric ≡ ok report
unfolding parse_findings grade_all find_object up_to_brace trim_str trim_str_left trim_str_right
    trim_space trim_left trim_right is_space
is_read = refl

parse_findings-blocking_example :
    (obj : Text) × (findings : List Finding) × (find_object raw ≡ some obj)
    × (decode obj ≡ ok (some findings))
    × ((blocking report high accepted ≡ []) ↔ All (IsAnswered rubric high accepted) findings)
parse_findings-blocking_example =
    parse_findings-blocking rubric high accepted decode raw report is_read
