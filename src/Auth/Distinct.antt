-- ===== src/Auth/Distinct.antt =====
-- A tenant key names one owner, one mode and one company.
use cobalt_dingo.Prelude.{
  ℕ, ◌≡◌, refl, sym, ap, ap₂, subst, ◌∙◌, true, false, [], ◌∷◌, ◌++◌, String, str_eq, ◌==◌, ok,
  arith, inl, inr, Bool-cases, All, str_eq_iff,
}
use mathlib.Core.List.{append_assoc}
use cobalt_dingo.Prelude.Text.{Text, trim_space, is_empty_text}
use cobalt_dingo.Dates.{codes}
use cobalt_dingo.Config.{is_valid, mode_sandbox, mode_production}
use cobalt_dingo.Config.Modes.{known_mode}
use cobalt_dingo.Auth.{Session}
use cobalt_dingo.Auth.Keys.{is_digit, company_key, tenant_key, tenant_id}

abbrev NoColon : Text → Type 0
NoColon s = All (λ c. (c == b':') ≡ false) s

colon_not_in : (before after : Text) → NoColon (before ++ b':' ∷ after) → ⊥
colon_not_in [] after (h, hs) = cc
colon_not_in (c ∷ before) after (h, hs) = colon_not_in before after hs

head_of : ℕ → Text → ℕ
head_of d [] = d
head_of d (c ∷ cs) = c

tail_of : Text → Text
tail_of [] = []
tail_of (c ∷ cs) = cs

-- What stands behind the last colon, and what stands before it.
last_colon_unique :
    (a c b d : Text) → NoColon b → NoColon d → a ++ b':' ∷ b ≡ c ++ b':' ∷ d → (a ≡ c) × (b ≡ d)
unfolding head_of tail_of
last_colon_unique [] [] b d nb nd e = (refl, ap tail_of e)
last_colon_unique [] (x ∷ c) b d nb nd e =
    absurd (colon_not_in c d (subst NoColon (ap tail_of e) nb))
last_colon_unique (x ∷ a) [] b d nb nd e =
    absurd (colon_not_in a b (subst NoColon (sym (ap tail_of e)) nd))
last_colon_unique (x ∷ a) (y ∷ c) b d nb nd e =
    let (before, after) = last_colon_unique a c b d nb nd (ap tail_of e) in
    (ap₂ ◌∷◌ (ap (head_of 0) e) before, after)

NoColon-company_key : (s : Text) → NoColon (company_key s)
unfolding company_key
NoColon-company_key [] = tt
NoColon-company_key (c ∷ cs) = elim (Bool-cases (is_digit c)) [
  | inl e ↦ rw e (ground arith, NoColon-company_key cs)
  | inr e ↦ rw e (NoColon-company_key cs)
]

NoColon-mode : (m : String) → is_valid m ≡ true → NoColon (codes m)
unfolding is_valid codes
NoColon-mode m h = elim (Bool-cases (str_eq m mode_sandbox)) [
  | inl e ↦ rw ((str_eq_iff m mode_sandbox).0 e) (search tt)
  | inr e ↦ rw ((str_eq_iff m mode_production).0 (rw e at h)) (search tt)
]

pub company_key-company_key : (s : Text) → company_key (company_key s) ≡ company_key s
unfolding company_key
company_key-company_key [] = refl
company_key-company_key (c ∷ cs) = elim (Bool-cases (is_digit c)) [
  | inl e ↦ rw (e, e) (ap (◌∷◌ c) (company_key-company_key cs))
  | inr e ↦ rw e (company_key-company_key cs)
]

modes_differ : codes mode_sandbox ≡ codes mode_production → ⊥
unfolding codes head_of
modes_differ e = let bad = ap (head_of 0) e in omega arith

codes-mode : (m n : String) → is_valid m ≡ true → is_valid n ≡ true → codes m ≡ codes n → m ≡ n
codes-mode m n hm hn e = elim (known_mode m hm) [
  | inl p ↦ elim (known_mode n hn) [
    | inl q ↦ p ∙ sym q
    | inr q ↦ absurd (modes_differ (ap codes (sym p) ∙ e ∙ ap codes q))
  ]
  | inr p ↦ elim (known_mode n hn) [
    | inl q ↦ absurd (modes_differ (sym (ap codes (sym p) ∙ e ∙ ap codes q)))
    | inr q ↦ p ∙ sym q
  ]
]

-- The key as two parts at its last colon.
tenant_key-parts :
    (owner : Text) (mode : String) (company : Text)
    → tenant_key owner mode company ≡ (owner ++ b':' ∷ codes mode) ++ b':' ∷ company_key company
unfolding tenant_key
tenant_key-parts owner mode company =
    sym (append_assoc owner (b':' ∷ codes mode) (b':' ∷ company_key company))

-- Keys of known modes agree only if all three parts do.
pub tenant_key-injective :
    (o p : Text) (m n : String) (a b : Text)
    → is_valid m ≡ true
    → is_valid n ≡ true
    → tenant_key o m a ≡ tenant_key p n b
    → (o ≡ p) × (m ≡ n) × (company_key a ≡ company_key b)
tenant_key-injective o p m n a b hm hn e =
    let (front, company) =
      last_colon_unique _ _ _ _ (NoColon-company_key a) (NoColon-company_key b)
        (sym (tenant_key-parts o m a) ∙ e ∙ tenant_key-parts p n b) in
    let (owner, mode) =
      last_colon_unique o p (codes m) (codes n) (NoColon-mode m hm) (NoColon-mode n hn) front in
    (owner, codes-mode m n hm hn mode, company)

pub tenant_id-guards :
    (s : Session) (k : Text)
    → tenant_id s ≡ ok k
    → (is_empty_text (trim_space s.owner) ≡ false)
      × (is_valid s.mode ≡ true)
      × (is_empty_text (company_key s.company) ≡ false)
      × (k ≡ tenant_key (trim_space s.owner) s.mode (company_key s.company))
unfolding tenant_id
tenant_id-guards s k h = ground arith

-- Two sessions have the same tenant key only if their owners without spaces around them, their modes
-- and the digits of their organisation numbers are the same; none of the three is then empty or
-- unknown. An owner that holds colons itself changes nothing of this.
pub tenant_id-injective :
    (s t : Session) (k : Text)
    → tenant_id s ≡ ok k
    → tenant_id t ≡ ok k
    → (trim_space s.owner ≡ trim_space t.owner)
      × (s.mode ≡ t.mode)
      × (company_key s.company ≡ company_key t.company)
      × (is_empty_text (trim_space s.owner) ≡ false)
      × (is_valid s.mode ≡ true)
      × (is_empty_text (company_key s.company) ≡ false)
tenant_id-injective s t k hs ht =
    let (named, known, chosen, ks) = tenant_id-guards s k hs in
    let (_, known', _, kt) = tenant_id-guards t k ht in
    let (owner, mode, company) =
      tenant_key-injective _ _ s.mode t.mode _ _ known known' (sym ks ∙ kt) in
    (
      owner,
      mode,
      sym (company_key-company_key s.company) ∙ company ∙ company_key-company_key t.company,
      named,
      known,
      chosen,
    )
