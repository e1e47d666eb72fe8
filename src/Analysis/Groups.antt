-- ===== src/Analysis/Groups.antt =====
-- `GroupBy` and `OrderedKeys` of internal/analyst/aggregator.go. A map is an association list.
use cobalt_dingo.Prelude.{
  ℕ, ◌≡◌, ◌↔◌, Bool, true, false, ◌||◌, List, [], ◌∷◌, ◌++◌, String, str_eq, str_eq_iff,
  ◌==◌ as nat_beq, ==_iff, if◌then◌else◌,
}

-- Comparable keys.
pub record Eq (K : Type 0) : Type 0 where
  pub beq : K → K → Bool
  pub beq_iff : (a b : K) → (beq a b ≡ true) ↔ (a ≡ b)

instance abbrev pub nat_eq : Eq ℕ
nat_eq = record { beq = nat_beq; beq_iff = ==_iff }

instance abbrev pub string_eq : Eq String
string_eq = record { beq = str_eq; beq_iff = str_eq_iff }

module _ {A K : Type 0} ⦃e : Eq K⦄ where
  -- `result[k] = append(result[k], item)`
  unfoldable pub append_to : K → A → List (K × List A) → List (K × List A)
  append_to k item [] = (k, item ∷ []) ∷ []
  append_to k item ((j, group) ∷ groups) =
      let rest = append_to k item groups in
      if e.beq j k then (j, group ++ item ∷ []) ∷ groups else (j, group) ∷ rest

  unfoldable pub group_items : (A → K) → List A → List (K × List A) → List (K × List A)
  group_items key [] groups = groups
  group_items key (item ∷ items) groups = group_items key items (append_to (key item) item groups)

  -- `GroupBy`
  unfoldable pub group_by : List A → (A → K) → List (K × List A)
  group_by items key = group_items key items []

  -- `grouped[k]`, nothing for a missing key.
  unfoldable pub group_of : K → List (K × List A) → List A
  group_of k [] = []
  group_of k ((j, group) ∷ groups) =
      let rest = group_of k groups in if e.beq j k then group else rest

module _ {K : Type 0} ⦃e : Eq K⦄ where
  unfoldable pub is_seen : K → List K → Bool
  is_seen k [] = false
  is_seen k (j ∷ seen) = e.beq j k || is_seen k seen

module _ {A K : Type 0} ⦃e : Eq K⦄ where
  unfoldable pub unseen_keys : (A → K) → List A → List K → List K
  unseen_keys key [] seen = []
  unseen_keys key (item ∷ items) seen =
      let old = unseen_keys key items seen in
      let new = unseen_keys key items (key item ∷ seen) in
      if is_seen (key item) seen then old else key item ∷ new

  -- `OrderedKeys`
  unfoldable pub ordered_keys : List A → (A → K) → List K
  ordered_keys items key = unseen_keys key items []
