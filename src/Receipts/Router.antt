-- ===== src/Receipts/Router.antt =====
-- `Router` of internal/receipts/receipts/router.go.
use cobalt_dingo.Prelude.{
  Bool, true, false, ◌&&◌, ◌||◌, Option, none, some, List, [], ◌∷◌, map, if◌then◌else◌,
}
use cobalt_dingo.Prelude.Text.{Text, same_text, after_prefix, contains, ends_with}
use cobalt_dingo.Receipts.{Unicode, Mail, to_lower}

pub record Destination : Type 0 where
  pub name : Text
  pub kind : Text
  pub address : Text

pub record Rule : Type 0 where
  pub name : Text
  pub match_from : List Text
  pub match_subject : List Text
  pub destination : Text

pub record Router : Type 0 where
  pub rules : List Rule
  pub destinations : List Destination

-- `r.destinations[name]`: `NewRouter` lets a later destination replace an earlier one.
unfoldable pub find_destination : Text → List Destination → Option Destination
find_destination n [] = none
find_destination n (d ∷ destinations) = elim (find_destination n destinations) [
  | some later ↦ some later
  | none ↦ if same_text n d.name then some d else none
]

module _ (u : Unicode) where
  -- `strings.EqualFold`
  abbrev pub equal_fold : Text → Text → Bool
  equal_fold a b = same_text (map u.fold a) (map u.fold b)

  -- `matchesAddress`; the two code points are "*@".
  unfoldable pub matches_address : Text → Text → Bool
  matches_address addr pattern = elim (after_prefix (42 ∷ 64 ∷ []) pattern) [
    | none ↦ equal_fold addr pattern
    | some domain ↦ equal_fold addr pattern || ends_with (to_lower u addr) (64 ∷ to_lower u domain)
  ]

  unfoldable pub any_address : Text → List Text → Bool
  any_address addr [] = false
  any_address addr (p ∷ patterns) = matches_address addr p || any_address addr patterns

  -- `matchesAnyAddress`
  abbrev pub matches_any_address : Text → List Text → Bool
  matches_any_address addr [] = true
  matches_any_address addr (p ∷ patterns) = any_address addr (p ∷ patterns)

  unfoldable pub any_subject : Text → List Text → Bool
  any_subject lower [] = false
  any_subject lower (p ∷ patterns) = contains lower (to_lower u p) || any_subject lower patterns

  -- `containsAnySubject`
  abbrev pub contains_any_subject : Text → List Text → Bool
  contains_any_subject subject [] = true
  contains_any_subject subject (p ∷ patterns) = any_subject (to_lower u subject) (p ∷ patterns)

  abbrev pub is_nil : List Text → Bool
  is_nil [] = true
  is_nil (x ∷ xs) = false

  -- `ruleMatches`
  unfoldable pub rule_matches : Rule → Mail → Bool
  rule_matches rule m =
      if is_nil rule.match_from && is_nil rule.match_subject
      then false
      else matches_any_address m.from rule.match_from
        && contains_any_subject m.subject rule.match_subject

  unfoldable pub route_by : List Rule → List Destination → Mail → Option Destination
  route_by [] destinations m = none
  route_by (rule ∷ rules) destinations m =
      if rule_matches rule m
      then find_destination rule.destination destinations
      else route_by rules destinations m

  -- `Route`
  unfoldable pub route : Router → Mail → Option Destination
  route r m = route_by r.rules r.destinations m
