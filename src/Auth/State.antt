-- ===== src/Auth/State.antt =====
-- The states that are accepted.
use cobalt_dingo.Prelude.{
  ℕ, ◌≡◌, ◌↔◌, refl, sym, ap, ◌∙◌, Bool, true, false, ◌||◌, none, some, [], ◌∷◌, ◌++◌, ◌==◌, ==_iff,
  if◌then◌else◌, inl, inr, Bool-cases, Option-cases, some-injective, subst,
}
use cobalt_dingo.Prelude.Text.{Text, is_empty_text, after_prefix, contains}
use cobalt_dingo.Auth.{oauth_state, with_code, cut, both_parts, parse_oauth_state}

some_when :
    (b : Bool) (cs : Text)
    → (elim (if b then some cs else none) [ none ↦ false | some rest ↦ true ]) ≡ b
some_when true cs = refl
some_when false cs = refl

-- A code point at the head, for `contains`.
contains_head :
    (sep c : ℕ) (cs : Text) → contains (c ∷ cs) (sep ∷ []) ≡ ((sep == c) || contains cs (sep ∷ []))
unfolding contains after_prefix
contains_head sep c cs = ap (λ b. b || contains cs (sep ∷ [])) (some_when (sep == c) cs)

pub cut-append :
    (sep : ℕ) (before after : Text)
    → contains before (sep ∷ []) ≡ false
    → cut sep (before ++ sep ∷ after) ≡ some (before, after)
unfolding cut
cut-append sep [] after h =
    ap (λ b. if b then some ([], after) else with_code sep (cut sep after))
      ((==_iff sep sep).1 refl)
cut-append sep (c ∷ before) after h = elim (Bool-cases (sep == c)) [
  | inl t ↦
      let bad = sym h ∙ contains_head sep c before ∙ ap (λ b. b || contains before (sep ∷ [])) t in
      cc
  | inr n ↦
      let rest =
        ap (λ b. b || contains before (sep ∷ [])) (sym n) ∙ sym (contains_head sep c before) ∙ h in
      ap
        (λ b.
          if b
          then some ([], before ++ sep ∷ after)
          else with_code c (cut sep (before ++ sep ∷ after)))
        n
      ∙ ap (with_code c) (cut-append sep before after rest)
]

contains_nil : (sep : ℕ) → contains [] (sep ∷ []) ≡ false
unfolding contains after_prefix
contains_nil sep = refl

-- What a cut says of the text.
abbrev pub IsCut : ℕ → Text → Text × Text → Type 0
IsCut sep s p = (s ≡ p.0 ++ sep ∷ p.1) × (contains p.0 (sep ∷ []) ≡ false)

pub cut-IsCut : (sep : ℕ) (s : Text) (p : Text × Text) → cut sep s ≡ some p → IsCut sep s p
unfolding cut
cut-IsCut sep [] p e = cc
cut-IsCut sep (c ∷ cs) p e =
    let rest = with_code c (cut sep cs) in
    elim (Bool-cases (sep == c)) [
      | inl t ↦
          let here = some-injective _ _ (sym (ap (λ b. if b then some ([], cs) else rest) t) ∙ e) in
          subst (IsCut sep (c ∷ cs)) here
            (ap (λ x. x ∷ cs) (sym ((==_iff sep c).0 t)), contains_nil sep)
      | inr n ↦
          let later = sym (ap (λ b. if b then some ([], cs) else rest) n) ∙ e in
          elim (Option-cases (cut sep cs)) [
            | inl none_there ↦ let bad = sym (ap (with_code c) none_there) ∙ later in cc
            | inr (q, there) ↦
                let whole = some-injective _ _ (sym (ap (with_code c) there) ∙ later) in
                let (split, clean) = cut-IsCut sep cs q there in
                subst (IsCut sep (c ∷ cs)) whole (
                  ap (λ x. c ∷ x) split,
                  contains_head sep c q.0 ∙ ap (λ b. b || contains q.0 (sep ∷ [])) n ∙ clean,
                )
          ]
    ]

-- A text that is not empty and holds no colon.
abbrev pub IsPart : Text → Type 0
IsPart t = (is_empty_text t ≡ false) × (contains t (b':' ∷ []) ≡ false)

accepted_iff :
    (a b c : Bool) {A : Type 0} (x : A)
    → ((if a || b || c then none else some x) ≡ some x) ↔ ((a ≡ false) × (b ≡ false) × (c ≡ false))
accepted_iff true b c x = ((λ e. cc), (λ h. let bad = h.0 in cc))
accepted_iff false true c x = ((λ e. cc), (λ h. let bad = h.1 in cc))
accepted_iff false false true x = ((λ e. cc), (λ h. let bad = h.2 in cc))
accepted_iff false false false x = ((λ e. (refl, refl, refl)), (λ h. refl))

same_when : (b : Bool) (p q : Text × Text) → (if b then none else some p) ≡ some q → p ≡ q
same_when true p q e = cc
same_when false p q e = some-injective _ _ e

-- A state is read as a nonce and a mode exactly when it was made of them and neither is empty or
-- holds a colon.
pub parse_oauth_state_iff :
    (state nonce mode : Text)
    → (parse_oauth_state state ≡ some (nonce, mode))
      ↔ ((state ≡ oauth_state nonce mode) × IsPart nonce × IsPart mode)
parse_oauth_state_iff state nonce mode = (
  (λ e. elim (Option-cases (cut b':' state)) [
    | inl no_colon ↦ let bad = sym (ap both_parts no_colon) ∙ e in cc
    | inr (p, cut_there) ↦
        let q : Text × Text = (nonce, mode) in
        let passed : both_parts (some p) ≡ some q = sym (ap both_parts cut_there) ∙ e in
        let same =
          same_when (is_empty_text p.0 || is_empty_text p.1 || contains p.1 (b':' ∷ [])) p q
            passed in
        let (made, plain_nonce) =
          subst (IsCut b':' state) same (cut-IsCut b':' state p cut_there) in
        let (named, moded, plain_mode) =
          (accepted_iff (is_empty_text nonce) (is_empty_text mode) (contains mode (b':' ∷ [])) q).0
            (subst (λ x. both_parts (some x) ≡ some q) same passed) in
        (made, (named, plain_nonce), (moded, plain_mode))
  ]),
  (λ (made, (named, plain_nonce), (moded, plain_mode)).
      ap parse_oauth_state made
      ∙ ap both_parts (cut-append b':' nonce mode plain_nonce)
      ∙ (accepted_iff (is_empty_text nonce) (is_empty_text mode) (contains mode (b':' ∷ []))
            (nonce, mode)).1
          (named, moded, plain_mode)),
)
