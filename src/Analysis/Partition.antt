-- ===== src/Analysis/Partition.antt =====
-- The groups of a list are its parts.
use cobalt_dingo.Prelude.{
  ℕ, suc, ◌+◌, ◌≡◌, refl, sym, ap, ◌∙◌, Bool, true, false, not, ◌||◌, List, [], ◌∷◌, ◌++◌,
  if◌then◌else◌, select, length, All, Bool-cases, arith, inl, inr, not_true,
}
use mathlib.Core.List.{append_assoc, append-nil}
use cobalt_dingo.Analysis.Groups.{
  Eq, append_to, group_items, group_by, group_of, is_seen, unseen_keys, ordered_keys,
}

joined :
    {A : Type 0} (b : Bool) (item : A) (items : List A)
    → (if b then item ∷ [] else []) ++ items ≡ (if b then item ∷ items else items)
joined true item items = refl
joined false item items = refl

module _ {K : Type 0} ⦃e : Eq K⦄ where
  -- Keys that differ from a common one.
  beq_apart : (i j k : K) → e.beq i j ≡ false → e.beq i k ≡ true → e.beq j k ≡ false
  beq_apart i j k apart at = not_true (e.beq j k) (λ same.
      let i_is_j = (e.beq_iff i k).0 at ∙ sym ((e.beq_iff j k).0 same) in
      let bad = sym apart ∙ (e.beq_iff i j).1 i_is_j in cc)

or_false : (a b : Bool) → (a || b) ≡ false → (a ≡ false) × (b ≡ false)
or_false true b h = cc
or_false false b h = (refl, h)

module _ {K : Type 0} ⦃e : Eq K⦄ where
  beq_sym_false : (i j : K) → e.beq i j ≡ false → e.beq j i ≡ false
  beq_sym_false i j h =
      not_true (e.beq j i)
        (λ same. let bad = sym h ∙ (e.beq_iff i j).1 (sym ((e.beq_iff j i).0 same)) in cc)

  still_unseen :
      (j : K) (seen keys : List K)
      → All (λ k. is_seen k (j ∷ seen) ≡ false) keys
      → All (λ k. is_seen k seen ≡ false) keys
  unfolding is_seen
  still_unseen j seen [] h = tt
  still_unseen j seen (k ∷ keys) (h, hs) =
      ((or_false (e.beq j k) (is_seen k seen) h).1, still_unseen j seen keys hs)

  new_apart :
      (j : K) (seen keys : List K)
      → All (λ k. is_seen k (j ∷ seen) ≡ false) keys
      → All (λ k. e.beq j k ≡ false) keys
  unfolding is_seen
  new_apart j seen [] h = tt
  new_apart j seen (k ∷ keys) (h, hs) =
      ((or_false (e.beq j k) (is_seen k seen) h).0, new_apart j seen keys hs)

  old_apart :
      (j : K) (seen keys : List K)
      → is_seen j seen ≡ true
      → All (λ k. is_seen k seen ≡ false) keys
      → All (λ k. e.beq j k ≡ false) keys
  old_apart j seen [] old h = tt
  old_apart j seen (k ∷ keys) old (h, hs) = (
    not_true (e.beq j k)
        (λ same. let bad = sym old ∙ ap (λ x. is_seen x seen) ((e.beq_iff j k).0 same) ∙ h in cc),
    old_apart j seen keys old hs,
  )

-- The sum of a figure over keys.
abbrev pub sum_over : {K : Type 0} → (K → ℕ) → List K → ℕ
sum_over f [] = 0
sum_over f (k ∷ keys) = f k + sum_over f keys

module _ {A K : Type 0} ⦃e : Eq K⦄ where
  -- The items of one key.
  abbrev pub with_key : (A → K) → K → List A → List A
  with_key key k items = select (λ item. e.beq (key item) k) items

  group_of-append_to :
      (k j : K) (item : A) (groups : List (K × List A))
      → group_of k (append_to j item groups)
        ≡ group_of k groups ++ (if e.beq j k then item ∷ [] else [])
  unfolding group_of append_to
  group_of-append_to k j item [] = ground arith
  group_of-append_to k j item ((i, group) ∷ groups) =
      let ih = group_of-append_to k j item groups in
      elim (Bool-cases (e.beq i j)) [
        | inl same ↦ elim (Bool-cases (e.beq j k)) [
          | inl at ↦ rw (same, (e.beq_iff i j).0 same, at) (refl)
          | inr off ↦ rw (same, (e.beq_iff i j).0 same, off) (sym (append-nil _))
        ]
        | inr apart ↦ elim (Bool-cases (e.beq i k)) [
          | inl at ↦ rw (apart, at, beq_apart i j k apart at) (sym (append-nil _))
          | inr off ↦ rw (apart, off) ih
        ]
      ]

  group_of-group_items :
      (key : A → K) (k : K) (items : List A) (groups : List (K × List A))
      → group_of k (group_items key items groups) ≡ group_of k groups ++ with_key key k items
  unfolding group_items
  group_of-group_items key k [] groups = sym (append-nil _)
  group_of-group_items key k (item ∷ items) groups =
      group_of-group_items key k items (append_to (key item) item groups)
      ∙ ap (λ l. l ++ with_key key k items) (group_of-append_to k (key item) item groups)
      ∙ append_assoc (group_of k groups) _ _
      ∙ ap (λ l. group_of k groups ++ l) (joined (e.beq (key item) k) item (with_key key k items))

  -- The group of a key is the items of that key, in their order.
  pub group_of-group_by :
      (key : A → K) (k : K) (items : List A)
      → group_of k (group_by items key) ≡ with_key key k items
  unfolding group_by group_of
  group_of-group_by key k items = group_of-group_items key k items []

  unseen_keys-All :
      (key : A → K) (items : List A) (seen : List K)
      → All (λ k. is_seen k seen ≡ false) (unseen_keys key items seen)
  unfolding unseen_keys
  unseen_keys-All key [] seen = tt
  unseen_keys-All key (item ∷ items) seen = elim (Bool-cases (is_seen (key item) seen)) [
    | inl old ↦ rw old (unseen_keys-All key items seen)
    | inr new ↦
        rw new (new, still_unseen (key item) seen _ (unseen_keys-All key items (key item ∷ seen)))
  ]

  -- The items whose key is not among those seen.
  abbrev fresh_items : (A → K) → List K → List A → List A
  fresh_items key seen items = select (λ item. not (is_seen (key item) seen)) items

  abbrev sizes : (A → K) → List A → List K → ℕ
  sizes key items keys = sum_over (λ k. length (with_key key k items)) keys

  -- An item counts for none of the keys that differ from its own.
  sizes-apart :
      (key : A → K) (item : A) (items : List A) (keys : List K)
      → All (λ k. e.beq (key item) k ≡ false) keys
      → sizes key (item ∷ items) keys ≡ sizes key items keys
  sizes-apart key item items [] h = refl
  sizes-apart key item items (k ∷ keys) (h, hs) =
      rw h (ap (λ n. length (with_key key k items) + n) (sizes-apart key item items keys hs))

  fresh_items-cons :
      (key : A → K) (j : K) (seen : List K) (items : List A)
      → is_seen j seen ≡ false
      → length (fresh_items key seen items)
        ≡ length (with_key key j items) + length (fresh_items key (j ∷ seen) items)
  unfolding is_seen
  fresh_items-cons key j seen [] h = refl
  fresh_items-cons key j seen (item ∷ items) h =
      let ih = fresh_items-cons key j seen items h in
      elim (Bool-cases (e.beq (key item) j)) [
        | inl at ↦
            let same = (e.beq_iff (key item) j).0 at in
            let old = ap (λ k. is_seen k seen) same ∙ h in
            let own = ap (λ k. e.beq j k) same ∙ (e.beq_iff j j).1 refl in
            rw (at, old, own) (omega (arith, ih))
        | inr off ↦
            let off' = beq_sym_false (key item) j off in
            elim (Bool-cases (is_seen (key item) seen)) [
              | inl old ↦ rw (off, off', old) ih
              | inr new ↦ rw (off, off', new) (omega (arith, ih))
            ]
      ]

  sizes-unseen_keys :
      (key : A → K) (items : List A) (seen : List K)
      → sizes key items (unseen_keys key items seen) ≡ length (fresh_items key seen items)
  unfolding unseen_keys
  sizes-unseen_keys key [] seen = refl
  sizes-unseen_keys key (item ∷ items) seen = elim (Bool-cases (is_seen (key item) seen)) [
    | inl old ↦ rw old (
        sizes-apart key item items _
          (old_apart (key item) seen _ old (unseen_keys-All key items seen))
        ∙ sizes-unseen_keys key items seen)
    | inr new ↦
        let rest : List K = unseen_keys key items (key item ∷ seen) in
        let apart = new_apart (key item) seen rest (unseen_keys-All key items (key item ∷ seen)) in
        rw (new, (e.beq_iff (key item) (key item)).1 refl)
          (omega (
            arith,
            sizes-apart key item items rest apart,
            sizes-unseen_keys key items (key item ∷ seen),
            fresh_items-cons key (key item) seen items new,
          ))
  ]

  all_fresh : (key : A → K) (items : List A) → length (fresh_items key [] items) ≡ length items
  unfolding is_seen
  all_fresh key [] = refl
  all_fresh key (item ∷ items) = ap suc (all_fresh key items)

  -- The groups of a list hold each of its items once.
  pub sizes-ordered_keys :
      (key : A → K) (items : List A)
      → sum_over (λ k. length (with_key key k items)) (ordered_keys items key) ≡ length items
  unfolding ordered_keys
  sizes-ordered_keys key items = sizes-unseen_keys key items [] ∙ all_fresh key items
