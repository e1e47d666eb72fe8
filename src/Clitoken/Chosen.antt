-- ===== src/Clitoken/Chosen.antt =====
-- The tenant that is chosen.
use cobalt_dingo.Prelude.{
  ℕ, ◌≡◌, ◌⊎◌, refl, sym, ap, ◌∙◌, subst, Bool, true, false, List, [], ◌∷◌, select, String, str_eq,
  Has, inl, inr, Bool-cases, if◌then◌else◌, ok, ok-injective,
}
use cobalt_dingo.Words.{trim_str}
use cobalt_dingo.Clitoken.{Tenant, in_mode, has_name, named, only, choose, select_tenant}

Has-select :
    {A : Type 0} (p : A → Bool) (a : A) (xs : List A)
    → Has a (select p xs)
    → Has a xs × (p a ≡ true)
Has-select p a [] h = absurd h
Has-select p a (x ∷ xs) h = elim (Bool-cases (p x)) [
  | inl t ↦
      let kept : Has a (x ∷ select p xs) =
        subst (λ b. Has a (if b then x ∷ select p xs else select p xs)) t h in
      elim kept [
        | inl e ↦ (inl e, ap p e ∙ t)
        | inr later ↦ let (has, e) = Has-select p a xs later in (inr has, e)
      ]
  | inr n ↦
      let kept : Has a (select p xs) =
        subst (λ b. Has a (if b then x ∷ select p xs else select p xs)) n h in
      let (has, e) = Has-select p a xs kept in (inr has, e)
]

module _ (fold : ℕ → ℕ) (mode : String) where
  named-Has :
      (want : String) (matches : List Tenant) (t : Tenant)
      → named fold mode want matches ≡ ok t
      → Has t matches × (has_name fold want t ≡ true)
  unfolding named
  named-Has want [] t e = cc
  named-Has want (x ∷ matches) t e =
      let rest = named fold mode want matches in
      elim (Bool-cases (has_name fold want x)) [
        | inl y ↦
            let same = ok-injective _ _ (sym (ap (λ b. if b then ok x else rest) y) ∙ e) in
            (inl (sym same), subst (λ z. has_name fold want z ≡ true) same y)
        | inr n ↦
            let (has, named_so) =
              named-Has want matches t (sym (ap (λ b. if b then ok x else rest) n) ∙ e) in
            (inr has, named_so)
      ]

  -- The name that was asked for, or the only match when none was.
  abbrev pub IsChosen : String → List Tenant → Tenant → Type 0
  IsChosen want matches t =
      ((str_eq want "" ≡ true) × (matches ≡ t ∷ []))
      ⊎ ((str_eq want "" ≡ false) × (has_name fold want t ≡ true))

  only-one : (matches : List Tenant) (t : Tenant) → only fold mode matches ≡ ok t → matches ≡ t ∷ []
  only-one [] t e = cc
  only-one (x ∷ []) t e = ap (λ z. z ∷ []) (ok-injective _ _ e)
  only-one (x ∷ y ∷ matches) t e = cc

  choose-IsChosen :
      (want : String) (matches : List Tenant) (t : Tenant)
      → choose fold mode want matches ≡ ok t
      → Has t matches × IsChosen want matches t
  choose-IsChosen want [] t e = cc
  choose-IsChosen want (x ∷ matches) t e =
      let one = only fold mode (x ∷ matches) in
      let by_name = named fold mode want (x ∷ matches) in
      elim (Bool-cases (str_eq want "")) [
        | inl y ↦
            let same =
              only-one (x ∷ matches) t (sym (ap (λ b. if b then one else by_name) y) ∙ e) in
            (subst (Has t) (sym same) (inl refl), inl (y, same))
        | inr n ↦
            let (has, is_named) =
              named-Has want (x ∷ matches) t (sym (ap (λ b. if b then one else by_name) n) ∙ e) in
            (has, inr (n, is_named))
      ]

  -- A tenant that is selected is one of those connected, for this mode. It has the company's name
  -- when one was given, and is the only one of the mode when none was.
  pub select_tenant-IsChosen :
      (tenants : List Tenant) (company : String) (t : Tenant)
      → select_tenant fold tenants mode company ≡ ok t
      → Has t tenants
        × (in_mode mode t ≡ true)
        × IsChosen (trim_str company) (select (in_mode mode) tenants) t
  select_tenant-IsChosen tenants company t e =
      let (has, chosen) = choose-IsChosen (trim_str company) (select (in_mode mode) tenants) t e in
      let (connected, moded) = Has-select (in_mode mode) t tenants has in (connected, moded, chosen)
