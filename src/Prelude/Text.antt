-- ===== src/Prelude/Text.antt =====
-- Texts as lists of code points, with what the source uses of Go's `strings` on them.
use Prim.Native.Nat.{ℕ, suc, ◌+◌, ◌≤◌}
use mathlib.Core.Path.{◌≡◌, refl, ap, ap₂, sym, subst, ◌∙◌}
use mathlib.Core.Logic.{inl, inr}
use mathlib.Core.Bool.{Bool, true, false, ◌&&◌, ◌||◌}
use mathlib.Core.List.{List, [], ◌∷◌, map}
use mathlib.Core.Option.{Option, none, some}
use native.Mathlib.Omega.{arith}
use cobalt_dingo.Prelude.Tests.{leb, ◌==◌, ==_iff, if◌then◌else◌, Bool-cases}
use cobalt_dingo.Prelude.Lists.{length, All}

abbrev pub Text : Type 0
Text = List ℕ

unfoldable pub same_text : Text → Text → Bool
same_text [] [] = true
same_text [] (b ∷ t) = false
same_text (a ∷ s) [] = false
same_text (a ∷ s) (b ∷ t) = a == b && same_text s t

pub same_text→eq : (s t : Text) → same_text s t ≡ true → s ≡ t
unfolding same_text
same_text→eq [] [] h = refl
same_text→eq [] (b ∷ t) h = cc
same_text→eq (a ∷ s) [] h = cc
same_text→eq (a ∷ s) (b ∷ t) h = elim (Bool-cases (a == b)) [
  | inl e ↦ rw ((==_iff a b).0 e) (ap (◌∷◌ b) (same_text→eq s t (rw e at h)))
  | inr e ↦ let bad = rw e at h in cc
]

pub same_text_refl : (s : Text) → same_text s s ≡ true
unfolding same_text
same_text_refl [] = refl
same_text_refl (a ∷ s) = rw ((==_iff a a).1 refl) (same_text_refl s)

abbrev pub is_empty_text : Text → Bool
is_empty_text [] = true
is_empty_text (a ∷ s) = false

-- `unicode.IsSpace`
unfoldable pub is_space : ℕ → Bool
is_space c =
    (leb 9 c && leb c 13)
    || (c == 32)
    || (c == 133)
    || (c == 160)
    || (c == 5760)
    || (leb 8192 c && leb c 8202)
    || (c == 8232)
    || (c == 8233)
    || (c == 8239)
    || (c == 8287)
    || (c == 12288)

unfoldable pub trim_left : Text → Text
trim_left [] = []
trim_left (c ∷ cs) = if is_space c then trim_left cs else c ∷ cs

-- A space is dropped if only spaces follow it.
abbrev pub keep_space : Bool → ℕ → Text → Text
keep_space space c (r ∷ rest) = c ∷ r ∷ rest
keep_space true c [] = []
keep_space false c [] = c ∷ []

unfoldable pub trim_right : Text → Text
trim_right [] = []
trim_right (c ∷ cs) = keep_space (is_space c) c (trim_right cs)

-- `strings.TrimSpace`
unfoldable pub trim_space : Text → Text
trim_space s = trim_right (trim_left s)

-- `strings.HasPrefix` and `strings.TrimPrefix` in one: what follows the prefix, if it stands there.
unfoldable pub after_prefix : Text → Text → Option Text
after_prefix [] s = some s
after_prefix (p ∷ ps) [] = none
after_prefix (p ∷ ps) (c ∷ cs) = if p == c then after_prefix ps cs else none

-- `strings.HasPrefix`
abbrev pub starts_with : Text → Text → Bool
starts_with p s = elim (after_prefix p s) [ none ↦ false | some rest ↦ true ]

-- `strings.Contains`
unfoldable pub contains : Text → Text → Bool
contains [] p = starts_with p []
contains (c ∷ cs) p = starts_with p (c ∷ cs) || contains cs p

-- `strings.HasSuffix`
unfoldable pub ends_with : Text → Text → Bool
ends_with [] p = same_text p []
ends_with (c ∷ cs) p = same_text p (c ∷ cs) || ends_with cs p

pub length-trim_left : (s : Text) → length (trim_left s) ≤ length s
unfolding trim_left
length-trim_left [] = omega arith
length-trim_left (c ∷ cs) = elim (Bool-cases (is_space c)) [
  | inl e ↦ rw e (omega (arith, length-trim_left cs))
  | inr e ↦ rw e (omega arith)
]

length-keep_space :
    (b : Bool) (c : ℕ) (rest : Text) → length (keep_space b c rest) ≤ suc (length rest)
length-keep_space b c (r ∷ rest) = omega arith
length-keep_space true c [] = omega arith
length-keep_space false c [] = omega arith

pub length-trim_right : (s : Text) → length (trim_right s) ≤ length s
unfolding trim_right
length-trim_right [] = omega arith
length-trim_right (c ∷ cs) =
    omega (arith, length-keep_space (is_space c) c (trim_right cs), length-trim_right cs)

pub length-trim_space : (s : Text) → length (trim_space s) ≤ length s
unfolding trim_space
length-trim_space s = omega (arith, length-trim_right (trim_left s), length-trim_left s)

abbrev or_none : Text → Option Text → Text
or_none d none = d
or_none d (some t) = t

pub length-after_prefix :
    (p s rest : Text) → after_prefix p s ≡ some rest → length p + length rest ≡ length s
unfolding after_prefix
length-after_prefix [] s rest e =
    let same : s ≡ rest = ap (or_none s) e in omega (arith, ap length same)
length-after_prefix (p ∷ ps) [] rest e = cc
length-after_prefix (p ∷ ps) (c ∷ cs) rest e = elim (Bool-cases (p == c)) [
  | inl t ↦ omega (arith, length-after_prefix ps cs rest (rw t at e))
  | inr t ↦ let bad = rw t at e in cc
]

-- A text without spaces is not trimmed.
trim_right-kept : (s : Text) → All (λ c. is_space c ≡ false) s → trim_right s ≡ s
unfolding trim_right
trim_right-kept [] hs = refl
trim_right-kept (c ∷ []) (h, hs) = ap (λ b. keep_space b c []) h
trim_right-kept (c ∷ d ∷ cs) (h, hs) = ap (keep_space (is_space c) c) (trim_right-kept (d ∷ cs) hs)

pub trim_space-kept : (s : Text) → All (λ c. is_space c ≡ false) s → trim_space s ≡ s
unfolding trim_space trim_left
trim_space-kept [] hs = trim_right-kept [] hs
trim_space-kept (c ∷ cs) (h, hs) =
    ap (λ b. trim_right (if b then trim_left cs else c ∷ cs)) h ∙ trim_right-kept (c ∷ cs) (h, hs)

trim_left-keep_space :
    (c : ℕ) (rest : Text)
    → is_space c ≡ false
    → trim_left (keep_space false c rest) ≡ keep_space false c rest
unfolding trim_left
trim_left-keep_space c [] h = ap (λ b. if b then [] else c ∷ []) h
trim_left-keep_space c (r ∷ rest) h = ap (λ b. if b then trim_left (r ∷ rest) else c ∷ r ∷ rest) h

trim_left-trim_right : (s : Text) → trim_left (trim_right (trim_left s)) ≡ trim_right (trim_left s)
unfolding trim_left trim_right
trim_left-trim_right [] = refl
trim_left-trim_right (c ∷ cs) = elim (Bool-cases (is_space c)) [
  | inl e ↦ rw e (trim_left-trim_right cs)
  | inr e ↦
      let kept = trim_left-keep_space c (trim_right cs) e in
      let same : (if is_space c then trim_left cs else c ∷ cs) ≡ c ∷ cs =
        ap (λ b. if b then trim_left cs else c ∷ cs) e in
      subst (λ t. trim_left (trim_right t) ≡ trim_right t) (sym same)
        (subst (λ b. trim_left (keep_space b c (trim_right cs)) ≡ keep_space b c (trim_right cs))
          (sym e) kept)
]

trim_right-keep_space :
    (b : Bool) (c : ℕ) (rest : Text)
    → is_space c ≡ b
    → trim_right rest ≡ rest
    → trim_right (keep_space b c rest) ≡ keep_space b c rest
unfolding trim_right
trim_right-keep_space true c [] e h = refl
trim_right-keep_space false c [] e h = ap (λ b. keep_space b c []) e
trim_right-keep_space b c (r ∷ rest) e h = ap (keep_space (is_space c) c) h

trim_right-trim_right : (s : Text) → trim_right (trim_right s) ≡ trim_right s
unfolding trim_right
trim_right-trim_right [] = refl
trim_right-trim_right (c ∷ cs) =
    trim_right-keep_space (is_space c) c (trim_right cs) refl (trim_right-trim_right cs)

pub trim_space-trim_space : (s : Text) → trim_space (trim_space s) ≡ trim_space s
unfolding trim_space
trim_space-trim_space s =
    ap trim_right (trim_left-trim_right s) ∙ trim_right-trim_right (trim_left s)

module _ (f : ℕ → ℕ) (keeps : (c : ℕ) → is_space (f c) ≡ is_space c) where
  trim_left-map : (s : Text) → trim_left (map f s) ≡ map f (trim_left s)
  unfolding trim_left
  trim_left-map [] = refl
  trim_left-map (c ∷ cs) = elim (Bool-cases (is_space c)) [
    | inl e ↦ rw (keeps c, e) (trim_left-map cs)
    | inr e ↦ rw (keeps c, e) (refl)
  ]

  keep_space-map :
      (b : Bool) (c : ℕ) (rest : Text)
      → keep_space b (f c) (map f rest) ≡ map f (keep_space b c rest)
  keep_space-map true c [] = refl
  keep_space-map false c [] = refl
  keep_space-map b c (r ∷ rest) = refl

  trim_right-map : (s : Text) → trim_right (map f s) ≡ map f (trim_right s)
  unfolding trim_right
  trim_right-map [] = refl
  trim_right-map (c ∷ cs) =
      ap₂ (λ b rest. keep_space b (f c) rest) (keeps c) (trim_right-map cs)
      ∙ keep_space-map (is_space c) c (trim_right cs)

  -- A mapping that keeps what is a space keeps what is trimmed.
  pub trim_space-map : (s : Text) → trim_space (map f s) ≡ map f (trim_space s)
  unfolding trim_space
  trim_space-map s = ap trim_right (trim_left-map s) ∙ trim_right-map (trim_left s)
