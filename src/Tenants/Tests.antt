-- ===== src/Tenants/Tests.antt =====
-- A matching of patterns that keeps the laws of `LIKE`, and tenants whose ids hold its wildcards.
use cobalt_dingo.Prelude.{
  ℕ, ◌≡◌, refl, Bool, true, false, ◌&&◌, ◌||◌, [], ◌∷◌, ◌==◌, if◌then◌else◌, arith, select, some,
}
use cobalt_dingo.Prelude.Text.{Text, starts_with, same_text}
use cobalt_dingo.Tenants.{
  Tenant, is_meta, LikeLaws, list_by_prefix, get_tenant, upsert_tenant, insert_by_name,
}
use cobalt_dingo.Tenants.Prefix.{list_by_prefix-starts_with}

abbrev head_is : ℕ → (Text → Bool) → Text → Bool
head_is c rest [] = false
head_is c rest (d ∷ s) = (c == d) && rest s

abbrev any_head : (Text → Bool) → Text → Bool
any_head rest [] = false
any_head rest (d ∷ s) = rest s

abbrev any_suffix : (Text → Bool) → Text → Bool
any_suffix rest [] = rest []
any_suffix rest (d ∷ s) = rest (d ∷ s) || any_suffix rest s

abbrev step : ℕ → (Text → Bool) → Text → Bool
step c rest s =
    if c == b'%' then any_suffix rest s else if c == b'_' then any_head rest s else head_is c rest s

abbrev is_end : Text → Bool
is_end [] = true
is_end (c ∷ cs) = false

pub like : Text → Text → Bool
like [] s = is_end s
like (c ∷ []) s = step c is_end s
like (c ∷ d ∷ p) s = if c == b'\\' then head_is d (like p) s else step c (like (d ∷ p)) s

step_plain :
    (c : ℕ) (rest : Text → Bool) (s : Text) → is_meta c ≡ false → step c rest s ≡ head_is c rest s
step_plain c rest s h = ground arith

not_backslash : (c : ℕ) → is_meta c ≡ false → (c == b'\\') ≡ false
not_backslash c h = ground arith

like_plain : (c : ℕ) (p s : Text) → is_meta c ≡ false → like (c ∷ p) s ≡ head_is c (like p) s
unfolding like
like_plain c [] [] h = ground arith
like_plain c [] (d ∷ s) h = ground arith
like_plain c (d ∷ p) s h = rw (not_backslash c h) (step_plain c (like (d ∷ p)) s h)

ends : (s : Text) → any_suffix is_end s ≡ true
ends [] = refl
ends (c ∷ s) = ends s

pub like-LikeLaws : LikeLaws like
unfolding like
like-LikeLaws = record {
  plain = λ c d p s h. like_plain c p (d ∷ s) h;
  plain_end = λ c p h. like_plain c p [] h;
  escaped = λ c d p s. refl;
  escaped_end = λ c p. refl;
  any_text = ends;
}

abbrev wild : Tenant
wild = record { id = b'a' ∷ b'%' ∷ b':' ∷ b'1' ∷ []; name = "Wild" }

abbrev other : Tenant
other = record { id = b'a' ∷ b'b' ∷ b':' ∷ b'2' ∷ []; name = "Other" }

abbrev prefix : Text
prefix = b'a' ∷ b'%' ∷ b':' ∷ []

list_by_prefix-starts_with_example :
    list_by_prefix like prefix (wild ∷ other ∷ [])
    ≡ select (λ (t : Tenant). starts_with prefix t.id) (wild ∷ other ∷ [])
list_by_prefix-starts_with_example =
    list_by_prefix-starts_with like like-LikeLaws prefix (wild ∷ other ∷ [])

renamed :
    get_tenant wild.id
      (upsert_tenant (λ a b. false) (record wild { name = "Tame" }) (other ∷ wild ∷ []))
    ≡ some (record wild { name = "Tame" })
unfolding get_tenant upsert_tenant insert_by_name same_text
renamed = refl
