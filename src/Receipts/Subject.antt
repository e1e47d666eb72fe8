-- ===== src/Receipts/Subject.antt =====
-- `normaliseSubject` and `ForwardedIndex` of internal/receipts/receipts/forwarded.go.
--
-- The loop runs until a pass strips nothing. Each pass that strips makes the subject shorter, so
-- the fuel is one more than its length.
use cobalt_dingo.Prelude.{
  ℕ, zero, suc, ◌+◌, ◌≤◌, ◌<◌, ◌≡◌, refl, sym, ◌∙◌, ap, subst, Bool, true, false, ◌||◌, Option,
  none, some, List, [], ◌∷◌, length, arith, if◌then◌else◌, Bool-cases, inl, inr, All,
}
use cobalt_dingo.Prelude.Text.{
  Text, same_text, is_empty_text, is_space, trim_space, after_prefix, length-trim_space,
  length-after_prefix, trim_space-trim_space, trim_space-map,
}
use cobalt_dingo.Receipts.{Unicode, to_lower}

-- `forwardPrefixes`: "fwd:", "fw:", "vb:", "re:", "sv:"
abbrev pub forward_prefixes : List Text
forward_prefixes =
    (102 ∷ 119 ∷ 100 ∷ 58 ∷ [])
    ∷ (102 ∷ 119 ∷ 58 ∷ [])
    ∷ (118 ∷ 98 ∷ 58 ∷ [])
    ∷ (114 ∷ 101 ∷ 58 ∷ [])
    ∷ (115 ∷ 118 ∷ 58 ∷ [])
    ∷ []

abbrev pub strip_step : Option Text → Text × Bool → Text × Bool
strip_step none state = state
strip_step (some rest) state = (trim_space rest, true)

-- The loop over the prefixes, on `s` and `trimmed`.
unfoldable pub strip_pass : List Text → Text × Bool → Text × Bool
strip_pass [] state = state
strip_pass (p ∷ prefixes) state = strip_pass prefixes (strip_step (after_prefix p state.0) state)

-- The outer loop; with no fuel left the subject is given back as it stands.
unfoldable pub strip : ℕ → Text → Text
strip zero s = s
strip (suc fuel) s =
    let (rest, trimmed) = strip_pass forward_prefixes (s, false) in
    elim trimmed [ false ↦ trim_space rest | true ↦ strip fuel rest ]

-- `normaliseSubject`
unfoldable pub normalise_subject : Unicode → Text → Text
normalise_subject u s = let t = to_lower u (trim_space s) in strip (suc (length t)) t

-- `ForwardedIndex`: its keys.
unfoldable pub has_key : Text → List Text → Bool
has_key t [] = false
has_key t (k ∷ keys) = same_text t k || has_key t keys

-- `ForwardedIndex.Has`
unfoldable pub has_subject : Unicode → List Text → Text → Bool
has_subject u index subject =
    let n = normalise_subject u subject in if is_empty_text n then false else has_key n index

-- `ForwardedIndex.add`
unfoldable pub add_subject : Unicode → Text → List Text → List Text
add_subject u subject index =
    let n = normalise_subject u subject in if is_empty_text n then index else n ∷ index

-- What a pass does to `s` and `trimmed`: it strips and shortens, or it leaves both.
record Shrinks (before after : Text × Bool) : Type 0 where
  shorter : length after.0 ≤ length before.0
  idle : after.1 ≡ false → after ≡ before
  busy : before.1 ≡ false → after.1 ≡ true → length after.0 < length before.0

Shrinks-trans : (a b c : Text × Bool) → Shrinks a b → Shrinks b c → Shrinks a c
Shrinks-trans a b c f g = record {
  shorter = omega (arith, f.shorter, g.shorter);
  idle = λ e. let q = g.idle e in q ∙ f.idle (ap (λ (x : Text × Bool). x.1) (sym q) ∙ e);
  busy = λ u v. elim (Bool-cases b.1) [
    | inl t ↦ omega (arith, f.busy u t, g.shorter)
    | inr n ↦ omega (arith, f.shorter, g.busy n v)
  ];
}

step-Shrinks :
    (p : Text) (o : Option Text) (state : Text × Bool)
    → 0 < length p
    → after_prefix p state.0 ≡ o
    → Shrinks state (strip_step o state)
step-Shrinks p none state h e = record { shorter = omega arith; idle = λ q. refl; busy = λ u v. cc }
step-Shrinks p (some rest) state h e =
    let cut = length-after_prefix p state.0 rest e in
    let trimmed = length-trim_space rest in
    record {
      shorter = omega (arith, cut, trimmed);
      idle = λ q. cc;
      busy = λ u v. omega (arith, cut, trimmed, h);
    }

strip_pass-Shrinks :
    (prefixes : List Text) (state : Text × Bool)
    → All (λ p. 0 < length p) prefixes
    → Shrinks state (strip_pass prefixes state)
unfolding strip_pass
strip_pass-Shrinks [] state h = record { shorter = omega arith; idle = λ e. refl; busy = λ u v. cc }
strip_pass-Shrinks (p ∷ prefixes) state h =
    let next = strip_step (after_prefix p state.0) state in
    Shrinks-trans state next (strip_pass prefixes next)
      (step-Shrinks p (after_prefix p state.0) state h.0 refl)
      (strip_pass-Shrinks prefixes next h.1)

-- A pass that strips nothing has found none of the prefixes.
step-none : (o : Option Text) (state : Text × Bool) → (strip_step o state).1 ≡ false → o ≡ none
step-none none state e = refl
step-none (some rest) state e = cc

strip_pass-none :
    (prefixes : List Text) (state : Text × Bool)
    → All (λ p. 0 < length p) prefixes
    → (strip_pass prefixes state).1 ≡ false
    → All (λ p. after_prefix p state.0 ≡ none) prefixes
unfolding strip_pass
strip_pass-none [] state h e = tt
strip_pass-none (p ∷ prefixes) state h e =
    let next = strip_step (after_prefix p state.0) state in
    let same = (strip_pass-Shrinks prefixes next h.1).idle e in
    let idle : next.1 ≡ false = ap (λ (x : Text × Bool). x.1) (sym same) ∙ e in
    let n = step-none (after_prefix p state.0) state idle in
    let kept : next ≡ state = ap (λ o. strip_step o state) n in
    (
      n,
      subst (λ (x : Text × Bool). All (λ q. after_prefix q x.0 ≡ none) prefixes) kept
          (strip_pass-none prefixes next h.1 e),
    )

prefixes_long : All (λ p. 0 < length p) forward_prefixes
prefixes_long = (omega arith, (omega arith, (omega arith, (omega arith, (omega arith, tt)))))

-- The text that the loop stops at: no prefix stands at its start.
abbrev pub IsBare : Text → Type 0
IsBare s = All (λ p. after_prefix p s ≡ none) forward_prefixes

-- No space at either end.
abbrev pub IsTrimmed : Text → Type 0
IsTrimmed s = trim_space s ≡ s

strip_step-IsTrimmed :
    (o : Option Text) (state : Text × Bool) → IsTrimmed state.0 → IsTrimmed (strip_step o state).0
strip_step-IsTrimmed none state h = h
strip_step-IsTrimmed (some rest) state h = trim_space-trim_space rest

strip_pass-IsTrimmed :
    (prefixes : List Text) (state : Text × Bool)
    → IsTrimmed state.0
    → IsTrimmed (strip_pass prefixes state).0
unfolding strip_pass
strip_pass-IsTrimmed [] state h = h
strip_pass-IsTrimmed (p ∷ prefixes) state h =
    strip_pass-IsTrimmed prefixes (strip_step (after_prefix p state.0) state)
      (strip_step-IsTrimmed (after_prefix p state.0) state h)

-- With more fuel than a trimmed subject is long the loop ends by itself: any other such fuel gives
-- the same result, and the result is bare and trimmed.
strip-ends :
    (f g : ℕ) (s : Text)
    → length s < f
    → length s < g
    → IsTrimmed s
    → (strip f s ≡ strip g s) × IsBare (strip f s) × IsTrimmed (strip f s)
unfolding strip
strip-ends zero g s a b h = absurd (omega arith)
strip-ends (suc f) zero s a b h = absurd (omega arith)
strip-ends (suc f) (suc g) s a b h =
    let out = strip_pass forward_prefixes (s, false) in
    let shrinks = strip_pass-Shrinks forward_prefixes (s, false) prefixes_long in
    elim (Bool-cases out.1) [
      | inl t ↦
          let less = shrinks.busy refl t in
          rw (t, strip)
            (strip-ends f g out.0 (omega (arith, less, a)) (omega (arith, less, b))
              (strip_pass-IsTrimmed forward_prefixes (s, false) h))
      | inr n ↦
          let bare = strip_pass-none forward_prefixes (s, false) prefixes_long n in
          let same = ap (λ (x : Text × Bool). trim_space x.0) (shrinks.idle n) ∙ h in
          rw (n, strip, same) (refl, bare, h)
    ]

-- `normaliseSubject` ends. The rounds that its length allows are enough: any more give the same
-- result. And it strips all that there is: the result begins with none of the prefixes and has no
-- space at either end, if lower case makes no code point a space and no space another code point.
pub normalise_subject-ends :
    (u : Unicode) (s : Text) (more : ℕ)
    → ((c : ℕ) → is_space (u.lower c) ≡ is_space c)
    → (normalise_subject u s
        ≡ strip (suc (length (to_lower u (trim_space s)) + more)) (to_lower u (trim_space s)))
      × IsBare (normalise_subject u s)
      × IsTrimmed (normalise_subject u s)
unfolding normalise_subject
normalise_subject-ends u s more keeps =
    let t = to_lower u (trim_space s) in
    let trimmed =
      trim_space-map u.lower keeps (trim_space s) ∙ ap (to_lower u) (trim_space-trim_space s) in
    strip-ends (suc (length t)) (suc (length t + more)) t (omega arith) (omega arith) trimmed
