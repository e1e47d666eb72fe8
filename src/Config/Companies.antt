-- ===== src/Config/Companies.antt =====
-- The company allowlist that a variable spells, read back.
use Prim.Native.Char.{Char, code}
use Prim.Native.String.{◌++◌ as append_str}
use cobalt_dingo.Prelude.{
  ◌≡◌, refl, ap, sym, ◌∙◌, Bool, true, false, List, [], ◌∷◌, map, select, String, str_eq,
  str_eq_iff, ◌==◌, if◌then◌else◌, arith, Bool-cases, not_true, inl, inr, All, ◌&&◌,
}
use cobalt_dingo.Prelude.Text.{is_space}
use text.Mathlib.TextLemmas.{nil-append, cons-append, cons-ne-nil}
use cobalt_dingo.Words.{trim_str, trim_str_left, trim_str_right}
use cobalt_dingo.Config.{split_comma, split_companies, is_name}

-- A text without a comma.
abbrev IsPlain : String → Type 0
IsPlain String.[] = Unit {0}
IsPlain (String.◌∷◌ c s) = ((code c == b',') ≡ false) × IsPlain s

abbrev join_comma_from : String → List String → String
join_comma_from s [] = s
join_comma_from s (t ∷ ts) = append_str s (String.◌∷◌ "," (join_comma_from t ts))

-- `strings.Join(names, ",")`, the text that an operator sets.
abbrev pub join_comma : List String → String
join_comma [] = ""
join_comma (s ∷ names) = join_comma_from s names

-- A company name as it is listed: not empty, without a comma, and without spaces at its ends.
pub record IsCompanyName (s : String) : Type 0 where
  pub plain : IsPlain s
  pub trimmed : trim_str s ≡ s
  pub named : str_eq s "" ≡ false

split_comma-plain : (s : String) → IsPlain s → split_comma s ≡ s ∷ []
unfolding split_comma
split_comma-plain String.[] p = refl
split_comma-plain (String.◌∷◌ c s) (no_comma, p) = rw (no_comma, split_comma-plain s p)

split_comma-append :
    (s t : String) → IsPlain s → split_comma (append_str s (String.◌∷◌ "," t)) ≡ s ∷ split_comma t
unfolding split_comma
split_comma-append String.[] t p = rw nil-append
split_comma-append (String.◌∷◌ c s) t (no_comma, p) =
    rw (cons-append, no_comma, split_comma-append s t p)

is_blank : String → Bool
is_blank String.[] = true
is_blank (String.◌∷◌ c s) = is_space (code c) && is_blank s

and_assoc : (a b c : Bool) → (a && (b && c)) ≡ ((a && b) && c)
and_assoc true b c = refl
and_assoc false b c = refl

is_blank-append : (s t : String) → is_blank (append_str s t) ≡ (is_blank s && is_blank t)
unfolding is_blank
is_blank-append String.[] t = rw nil-append
is_blank-append (String.◌∷◌ c s) t =
    rw (cons-append, is_blank-append s t) (and_assoc (is_space (code c)) (is_blank s) (is_blank t))

is_blank-trim_str_left : (s : String) → is_blank (trim_str_left s) ≡ is_blank s
unfolding is_blank trim_str_left
is_blank-trim_str_left String.[] = refl
is_blank-trim_str_left (String.◌∷◌ c s) = ground (arith, is_blank-trim_str_left s)

cons_not_empty : (c : Char) (s : String) → str_eq (String.◌∷◌ c s) "" ≡ false
cons_not_empty c s = not_true _ (λ e. cons-ne-nil c s ((str_eq_iff (String.◌∷◌ c s) "").0 e))

trim_str_right_cases :
    (c : Char) (r : String) {b : Bool}
    → str_eq r "" ≡ b
    → str_eq
        (if str_eq r ""
          then (if is_space (code c) then "" else String.◌∷◌ c "")
          else String.◌∷◌ c r)
        ""
      ≡ (is_space (code c) && b)
trim_str_right_cases c r h = elim (Bool-cases (str_eq r "")) [
  | inl e ↦ elim (Bool-cases (is_space (code c))) [
    | inl f ↦ rw (← h, e, f) (refl)
    | inr f ↦ rw (← h, e, f) (cons_not_empty c "")
  ]
  | inr e ↦ elim (Bool-cases (is_space (code c))) [
    | inl f ↦ rw (← h, e, f) (cons_not_empty c r)
    | inr f ↦ rw (← h, e, f) (cons_not_empty c r)
  ]
]

trim_str_right-blank : (s : String) → str_eq (trim_str_right s) "" ≡ is_blank s
unfolding is_blank trim_str_right
trim_str_right-blank String.[] = refl
trim_str_right-blank (String.◌∷◌ c s) =
    trim_str_right_cases c (trim_str_right s) (trim_str_right-blank s)

trim_str-blank : (s : String) → str_eq (trim_str s) "" ≡ is_blank s
unfolding trim_str
trim_str-blank s = trim_str_right-blank (trim_str_left s) ∙ is_blank-trim_str_left s

join_comma-split :
    (s : String) (names : List String)
    → All IsCompanyName (s ∷ names)
    → split_comma (join_comma_from s names) ≡ s ∷ names
join_comma-split s [] (n, ns) = split_comma-plain s n.plain
join_comma-split s (t ∷ names) (n, ns) =
    split_comma-append s (join_comma_from t names) n.plain
    ∙ ap (◌∷◌ s) (join_comma-split t names ns)

names-kept :
    (names : List String) → All IsCompanyName names → select is_name (map trim_str names) ≡ names
names-kept [] ns = refl
names-kept (s ∷ names) (n, ns) = rw (n.trimmed, n.named) (ap (◌∷◌ s) (names-kept names ns))

join_comma-blank :
    (s : String) (names : List String)
    → IsCompanyName s
    → str_eq (trim_str (join_comma_from s names)) "" ≡ false
join_comma-blank s [] n = rw n.trimmed n.named
join_comma-blank s (t ∷ names) n =
    let blank : is_blank s ≡ false = sym (trim_str-blank s) ∙ (rw n.trimmed n.named) in
    trim_str-blank _ ∙ is_blank-append s _ ∙ (rw blank)

-- An allowlist that is set as its names joined by commas is read back as those names, in their
-- order, if each name is not empty, has no comma and no spaces at its ends.
split_companies-join_comma :
    (names : List String) → All IsCompanyName names → split_companies (join_comma names) ≡ names
unfolding split_companies trim_str trim_str_right trim_str_left
split_companies-join_comma [] ns = refl
split_companies-join_comma (s ∷ names) (n, ns) =
    rw (join_comma-blank s names n, join_comma-split s names (n, ns))
      (names-kept (s ∷ names) (n, ns))
