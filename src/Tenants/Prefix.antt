-- ===== src/Tenants/Prefix.antt =====
-- A listing by prefix takes the prefix literally.
use mathlib.Core.List.{append_assoc}
use cobalt_dingo.Prelude.{
  ℕ, ◌≡◌, refl, sym, ap, ◌∙◌, Bool, true, false, ◌&&◌, List, [], ◌∷◌, ◌++◌, ◌==◌, ==_iff, Option,
  if◌then◌else◌, Bool-cases, select, inl, inr, none, some,
}
use cobalt_dingo.Prelude.Text.{Text, starts_with, after_prefix}
use cobalt_dingo.Tenants.{
  Tenant, replace_all, escape_like, is_meta, LikeLaws, list_tenants_by_prefix, list_by_prefix,
}

-- One code point, as it is escaped.
abbrev escaped_code : ℕ → Text
escaped_code c = if is_meta c then b'\\' ∷ c ∷ [] else c ∷ []

escape_like-cons : (c : ℕ) (s : Text) → escape_like (c ∷ s) ≡ escaped_code c ++ escape_like s
unfolding escape_like replace_all
escape_like-cons c s = elim (Bool-cases (c == b'\\')) [
  | inl e ↦ rw ((==_iff c b'\\').0 e) (refl)
  | inr e ↦ elim (Bool-cases (c == b'%')) [
    | inl f ↦ rw ((==_iff c b'%').0 f) (refl)
    | inr f ↦ elim (Bool-cases (c == b'_')) [
      | inl g ↦ rw ((==_iff c b'_').0 g) (refl)
      | inr g ↦ rw (e, f, g) (refl)
    ]
  ]
]

pattern_of :
    (c : ℕ) (prefix : Text)
    → escape_like (c ∷ prefix) ++ b'%' ∷ [] ≡ escaped_code c ++ (escape_like prefix ++ b'%' ∷ [])
pattern_of c prefix =
    ap (λ p. p ++ b'%' ∷ []) (escape_like-cons c prefix) ∙ append_assoc (escaped_code c) _ _

found_if :
    (b : Bool) (o : Option Text)
    → (elim (if b then o else none) [ none ↦ false | some rest ↦ true ])
      ≡ (b && elim o [ none ↦ false | some rest ↦ true ])
found_if true o = refl
found_if false o = refl

starts_with-cons :
    (c d : ℕ) (p s : Text) → starts_with (c ∷ p) (d ∷ s) ≡ ((c == d) && starts_with p s)
unfolding after_prefix
starts_with-cons c d p s = found_if (c == d) (after_prefix p s)

select_same :
    {A : Type 0} (p q : A → Bool) (rows : List A)
    → ((a : A) → p a ≡ q a)
    → select p rows ≡ select q rows
select_same p q [] h = refl
select_same p q (t ∷ rows) h = rw (h t, select_same p q rows h)

module _ (like : Text → Text → Bool) (laws : LikeLaws like) where
  -- A code point of the prefix is matched by itself, whether it is escaped or not.
  like-escaped_code :
      (c d : ℕ) (p s : Text)
      → (like (escaped_code c ++ p) (d ∷ s) ≡ ((c == d) && like p s))
        × (like (escaped_code c ++ p) [] ≡ false)
  like-escaped_code c d p s = elim (Bool-cases (is_meta c)) [
    | inl e ↦ rw e (laws.escaped c d p s, laws.escaped_end c p)
    | inr e ↦ rw e (laws.plain c d p s e, laws.plain_end c p e)
  ]

  like-escape_like :
      (prefix s : Text) → like (escape_like prefix ++ b'%' ∷ []) s ≡ starts_with prefix s
  unfolding after_prefix escape_like replace_all
  like-escape_like [] s = laws.any_text s
  like-escape_like (c ∷ prefix) [] =
      ap (λ p. like p []) (pattern_of c prefix) ∙ (like-escaped_code c 0 _ []).1
  like-escape_like (c ∷ prefix) (d ∷ s) =
      ap (λ p. like p (d ∷ s)) (pattern_of c prefix)
      ∙ (like-escaped_code c d (escape_like prefix ++ b'%' ∷ []) s).0
      ∙ ap (λ b. (c == d) && b) (like-escape_like prefix s)
      ∙ sym (starts_with-cons c d prefix s)

  -- `ListByPrefix` returns the tenants whose id starts with the prefix, in the order of the rows,
  -- whatever per cent signs, underscores and backslashes the prefix holds, if `LIKE` keeps its laws.
  pub list_by_prefix-starts_with :
      (prefix : Text) (rows : List Tenant)
      → list_by_prefix like prefix rows ≡ select (λ (t : Tenant). starts_with prefix t.id) rows
  unfolding list_by_prefix list_tenants_by_prefix
  list_by_prefix-starts_with prefix rows =
      select_same _ _ rows (λ (t : Tenant). like-escape_like prefix t.id)
