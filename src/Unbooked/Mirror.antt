-- ===== src/Unbooked/Mirror.antt =====
-- What `DetectUnbookedChange` finds, and what the store holds after it: sets of invoices, so
-- stated by membership.
use cobalt_dingo.Prelude.{
  ◌≡◌, refl, ◌∙◌, ap, Bool, true, false, not, ◌&&◌, ◌||◌, List, [], ◌∷◌, arith, ==_iff, select,
  if◌then◌else◌, Bool-cases, inl, inr,
}
use cobalt_dingo.Unbooked.{
  UnbookedKind, payable, receivable, UnbookedRef, same_kind, same_ref, known, index, insert_ref,
  sort_refs, ref_before, detect_unbooked_change,
}
use cobalt_dingo.Unbooked.Store.{remember, forget, remember_all, forget_all, reconcile_rows}

same_kind→eq : (a b : UnbookedKind) → same_kind a b ≡ true → a ≡ b
same_kind→eq payable payable e = refl
same_kind→eq receivable receivable e = refl
same_kind→eq payable receivable e = cc
same_kind→eq receivable payable e = cc

same_kind_sym : (a b : UnbookedKind) → same_kind a b ≡ same_kind b a
same_kind_sym payable payable = refl
same_kind_sym payable receivable = refl
same_kind_sym receivable payable = refl
same_kind_sym receivable receivable = refl

same_ref→eq : (a b : UnbookedRef) → same_ref a b ≡ true → a ≡ b
same_ref→eq a b e =
    ground (arith, same_kind→eq a.kind b.kind, ==_iff a.invoice_number b.invoice_number)

same_ref_sym : (a b : UnbookedRef) → same_ref a b ≡ same_ref b a
same_ref_sym a b = ground (arith, same_kind_sym a.kind b.kind)

-- A test on keys gives the same answer for equal keys.
test-same :
    (p : UnbookedRef → Bool) (r x : UnbookedRef) → (same_ref r x && p x) ≡ (same_ref r x && p r)
test-same p r x = elim (Bool-cases (same_ref r x)) [
  | inl e ↦ let q = same_ref→eq r x e in rw q refl
  | inr e ↦ rw e refl
]

known-if :
    (r : UnbookedRef) (b : Bool) (xs ys : List UnbookedRef)
    → known r (if b then xs else ys) ≡ (if b then known r xs else known r ys)
known-if r true xs ys = refl
known-if r false xs ys = refl

select-step :
    (s px pr k k' : Bool)
    → (s && px) ≡ (s && pr)
    → k' ≡ (k && pr)
    → (if px then s || k' else k') ≡ ((s || k) && pr)
select-step s px pr k k' e q = ground arith

pub known-select :
    (r : UnbookedRef) (p : UnbookedRef → Bool) (xs : List UnbookedRef)
    → known r (select p xs) ≡ (known r xs && p r)
unfolding known
known-select r p [] = refl
known-select r p (x ∷ xs) =
    known-if r (p x) (x ∷ select p xs) (select p xs)
    ∙ select-step (same_ref r x) (p x) (p r) (known r xs) (known r (select p xs)) (test-same p r x)
        (known-select r p xs)

insert-step :
    (b sx sy k k' : Bool)
    → k' ≡ (sx || k)
    → (if b then sy || k' else sx || (sy || k)) ≡ (sx || (sy || k))
insert-step b sx sy k k' e = ground arith

pub known-insert :
    (r x : UnbookedRef) (xs : List UnbookedRef)
    → known r (insert_ref x xs) ≡ (same_ref r x || known r xs)
unfolding known insert_ref
known-insert r x [] = refl
known-insert r x (y ∷ ys) =
    let before = ref_before y x in
    known-if r before (y ∷ insert_ref x ys) (x ∷ y ∷ ys)
    ∙ insert-step before (same_ref r x) (same_ref r y) (known r ys) (known r (insert_ref x ys))
        (known-insert r x ys)

pub known-sort : (r : UnbookedRef) (xs : List UnbookedRef) → known r (sort_refs xs) ≡ known r xs
unfolding known sort_refs
known-sort r [] = refl
known-sort r (x ∷ xs) =
    known-insert r x (sort_refs xs) ∙ ap (λ b. same_ref r x || b) (known-sort r xs)

known-same :
    (r x : UnbookedRef) (xs : List UnbookedRef)
    → (same_ref r x && known x xs) ≡ (same_ref r x && known r xs)
known-same r x xs = test-same (λ y. known y xs) r x

index-step :
    (b s k k' : Bool) → (s && b) ≡ (s && k) → k' ≡ k → (if b then k' else s || k') ≡ (s || k)
index-step b s k k' e q = ground arith

pub known-index : (r : UnbookedRef) (xs : List UnbookedRef) → known r (index xs) ≡ known r xs
unfolding known index
known-index r [] = refl
known-index r (x ∷ xs) =
    known-if r (known x xs) (index xs) (x ∷ index xs)
    ∙ index-step (known x xs) (same_ref r x) (known r xs) (known r (index xs)) (known-same r x xs)
        (known-index r xs)

-- An invoice is reported exactly when it is unbooked now and was not remembered.
pub detect-appeared :
    (r : UnbookedRef) (seen current : List UnbookedRef)
    → known r (detect_unbooked_change seen current).appeared
      ≡ (known r current && not (known r seen))
unfolding detect_unbooked_change
detect-appeared r seen current =
    let fresh = λ (x : UnbookedRef). not (known x seen) in
    known-sort r (select fresh (index current))
    ∙ known-select r fresh (index current)
    ∙ ap (λ b. b && not (known r seen)) (known-index r current)

pub detect-resolved :
    (r : UnbookedRef) (seen current : List UnbookedRef)
    → known r (detect_unbooked_change seen current).resolved
      ≡ (known r seen && not (known r current))
unfolding detect_unbooked_change
detect-resolved r seen current =
    let gone = λ (x : UnbookedRef). not (known x current) in
    known-sort r (select gone (index seen))
    ∙ known-select r gone (index seen)
    ∙ ap (λ b. b && not (known r current)) (known-index r seen)

covered : (s b k : Bool) → (s && b) ≡ (s && k) → b ≡ true → k ≡ (s || k)
covered s b k e t = ground arith

pub known-remember :
    (r x : UnbookedRef) (rows : List UnbookedRef)
    → known r (remember x rows) ≡ (same_ref r x || known r rows)
unfolding known remember
known-remember r x rows = elim (Bool-cases (known x rows)) [
  | inl e ↦
      let same = known-same r x rows in
      rw (e, remember) (covered (same_ref r x) (known x rows) (known r rows) same e)
  | inr e ↦ rw (e, remember) refl
]

pub known-remember_all :
    (r : UnbookedRef) (xs rows : List UnbookedRef)
    → known r (remember_all xs rows) ≡ (known r xs || known r rows)
unfolding known remember_all
known-remember_all r [] rows = refl
known-remember_all r (x ∷ xs) rows =
    let ih = known-remember_all r xs (remember x rows) in
    let e = known-remember r x rows in rw (ih, e) (ground arith)

forget-step : (s s' k l f : Bool) → s ≡ s' → f ≡ (k && not s') → (f && not l) ≡ (k && not (s || l))
forget-step s s' k l f e q = ground arith

pub known-forget_all :
    (r : UnbookedRef) (xs rows : List UnbookedRef)
    → known r (forget_all xs rows) ≡ (known r rows && not (known r xs))
unfolding known forget_all forget
known-forget_all r [] rows = ground arith
known-forget_all r (x ∷ xs) rows =
    let ih = known-forget_all r xs (forget x rows) in
    let e = known-select r (λ y. not (same_ref x y)) rows in
    ih
    ∙ forget-step (same_ref r x) (same_ref x r) (known r rows) (known r xs)
        (known r (forget x rows)) (same_ref_sym r x) e

-- After the statements of `Reconcile` the store remembers what is unbooked, and nothing else.
pub reconcile_rows-detect :
    (r : UnbookedRef) (seen current : List UnbookedRef)
    → known r (reconcile_rows (detect_unbooked_change seen current) seen) ≡ known r current
unfolding reconcile_rows
reconcile_rows-detect r seen current =
    let c = detect_unbooked_change seen current in
    rw
      (
        known-forget_all r c.resolved (remember_all c.appeared seen),
        known-remember_all r c.appeared seen,
        detect-appeared r seen current,
        detect-resolved r seen current,
      )
      (ground arith)
