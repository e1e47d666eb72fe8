-- ===== src/Vouchers/Store/Rows.antt =====
-- The rows of one year in the table of vouchers: upserting them, selecting them and ordering them.
use cobalt_dingo.Prelude.{
  ℕ, ◌+◌, ◌≡◌, refl, sym, ap, ap₂, ◌∙◌, Bool, true, false, not, ◌&&◌, some, List, [], ◌∷◌, ◌++◌,
  map, select, String, str_eq, str_eq_refl, ==_iff, Bool-cases, if◌then◌else◌, ok, ◌>>=◌, All,
  arith, inl, inr, subst, select-append,
}
use cobalt_dingo.Prelude.Int.{ℤ, pos_part, neg_part, eqb_ℤ}
use cobalt_dingo.Prelude.Int32.{wrap32}
use cobalt_dingo.Prelude.Counts.{weight, count}
use cobalt_dingo.Dates.{Instant, parse_date}
use cobalt_dingo.Ledger.{Voucher}
use cobalt_dingo.Vouchers.Store.{
  StoredVoucher, Encoding, year_column, in_year, same_key, upsert, to_stored, store_dated,
  store_all, before, insert_stored, sort_stored, delete_year,
}

-- Two vouchers of one series and number.
abbrev pub same_number : Voucher → Voucher → Bool
same_number v w = str_eq v.series w.series && eqb_ℤ v.number w.number

-- Two vouchers under one key of the table.
abbrev pub shares_key : Voucher → Voucher → Bool
shares_key v w = str_eq v.series w.series && eqb_ℤ (wrap32 v.number) (wrap32 w.number)

-- No two vouchers that a test finds equal.
abbrev pub AllApart : (Voucher → Voucher → Bool) → List Voucher → Type 0
AllApart same [] = Unit
AllApart same (v ∷ vouchers) = All (λ w. same w v ≡ false) vouchers × AllApart same vouchers

-- No two vouchers of one series and number.
abbrev pub AllDistinct : List Voucher → Type 0
AllDistinct = AllApart same_number

-- A number that the int32 of the column holds.
abbrev pub FitsColumn : Voucher → Type 0
FitsColumn v = wrap32 v.number ≡ v.number

apart_keys :
    (v : Voucher) (vouchers : List Voucher)
    → FitsColumn v
    → All FitsColumn vouchers
    → All (λ w. same_number w v ≡ false) vouchers
    → All (λ w. shares_key w v ≡ false) vouchers
apart_keys v [] f fs hs = tt
apart_keys v (w ∷ vouchers) f (g, gs) (h, hs) =
    (ap₂ (λ a b. str_eq w.series v.series && eqb_ℤ a b) g f ∙ h, apart_keys v vouchers f gs hs)

pub AllDistinct-keys :
    (vouchers : List Voucher)
    → All FitsColumn vouchers
    → AllDistinct vouchers
    → AllApart shares_key vouchers
AllDistinct-keys [] fs hs = tt
AllDistinct-keys (v ∷ vouchers) (f, fs) (h, hs) =
    (apart_keys v vouchers f fs h, AllDistinct-keys vouchers fs hs)

-- A voucher whose date parses.
abbrev pub HasDate : Voucher → Type 0
HasDate v = (date : Instant) × (parse_date v.transaction_date ≡ some date)

pub in_self : (tenant : String) (year : ℤ) → (str_eq tenant tenant && eqb_ℤ year year) ≡ true
in_self tenant year =
    ap₂ (λ a b. a && b) (str_eq_refl tenant)
      ((==_iff (pos_part year + neg_part year) (pos_part year + neg_part year)).1 refl)

module _ {J : Type 0} (enc : Encoding J) (tenant : String) (year : ℕ) where
  -- No row of the table under the key of the voucher.
  abbrev pub IsAbsent : Voucher → List (StoredVoucher J) → Type 0
  IsAbsent v rows = All (λ x. same_key enc (to_stored enc tenant year v) x ≡ false) rows

  upsert-new :
      (r : StoredVoucher J) (rows : List (StoredVoucher J))
      → All (λ x. same_key enc r x ≡ false) rows
      → upsert enc r rows ≡ rows ++ (r ∷ [])
  unfolding upsert
  upsert-new r [] h = refl
  upsert-new r (x ∷ rows) (h, hs) =
      ap (λ b. if b then r ∷ rows else x ∷ upsert enc r rows) h
      ∙ ap (λ xs. x ∷ xs) (upsert-new r rows hs)

  All-append :
      {A : Type 0} (P : A → Type 0) (xs : List A) (y : A) → All P xs → P y → All P (xs ++ (y ∷ []))
  All-append P [] y hs h = (h, tt)
  All-append P (x ∷ xs) y (hx, hs) h = (hx, All-append P xs y hs h)

  append-nil : {A : Type 0} (xs : List A) → xs ++ [] ≡ xs
  append-nil [] = refl
  append-nil (x ∷ xs) = ap (λ ys. x ∷ ys) (append-nil xs)

  append-one :
      {A : Type 0} (xs : List A) (y : A) (ys : List A) → (xs ++ (y ∷ [])) ++ ys ≡ xs ++ (y ∷ ys)
  append-one [] y ys = refl
  append-one (x ∷ xs) y ys = ap (λ zs. x ∷ zs) (append-one xs y ys)

  -- Absence of the rest is kept by the row of a voucher of another key.
  to_stored-IsAbsent :
      (v : Voucher) (vouchers : List Voucher) (rows : List (StoredVoucher J))
      → All (λ w. shares_key w v ≡ false) vouchers
      → All (λ w. IsAbsent w rows) vouchers
      → All (λ w. IsAbsent w (rows ++ (to_stored enc tenant year v ∷ []))) vouchers
  to_stored-IsAbsent v [] rows hs gs = tt
  to_stored-IsAbsent v (w ∷ vouchers) rows (h, hs) (g, gs) = (
    All-append (λ x. same_key enc (to_stored enc tenant year w) x ≡ false) rows
        (to_stored enc tenant year v) g (ap₂ (λ a b. a && b) (in_self tenant (year_column year)) h),
    to_stored-IsAbsent v vouchers rows hs gs,
  )

  pub store_all-distinct :
      (vouchers : List Voucher) (rows : List (StoredVoucher J))
      → All HasDate vouchers
      → AllApart shares_key vouchers
      → All (λ v. IsAbsent v rows) vouchers
      → store_all enc true tenant year vouchers rows
        ≡ ok (rows ++ map (to_stored enc tenant year) vouchers)
  unfolding store_all
  store_all-distinct [] rows ds us news = ap ok (sym (append-nil rows))
  store_all-distinct (v ∷ vouchers) rows ((date, d), ds) (u, us) (new, news) =
      let r = to_stored enc tenant year v in
      ap
        (λ o. store_dated enc true o tenant year v rows >>= store_all enc true tenant year vouchers)
        d
      ∙ ap (store_all enc true tenant year vouchers) (upsert-new r rows new)
      ∙ store_all-distinct vouchers (rows ++ (r ∷ [])) ds us
          (to_stored-IsAbsent v vouchers rows u news)
      ∙ ap ok (append-one rows r (map (to_stored enc tenant year) vouchers))

  -- The rows of the year, out of a table where they were deleted and written again.
  in_year-deleted :
      (rows : List (StoredVoucher J))
      → select
          (in_year enc tenant (year_column year))
          (delete_year enc tenant (year_column year) rows)
        ≡ []
  in_year-deleted [] = refl
  in_year-deleted (x ∷ rows) = elim (Bool-cases (in_year enc tenant (year_column year) x)) [
    | inl e ↦
        ap
          (λ b. select (in_year enc tenant (year_column year)) (
            if not b
            then x ∷ delete_year enc tenant (year_column year) rows
            else delete_year enc tenant (year_column year) rows))
          e
        ∙ in_year-deleted rows
    | inr e ↦
        ap
          (λ b. select (in_year enc tenant (year_column year)) (
            if not b
            then x ∷ delete_year enc tenant (year_column year) rows
            else delete_year enc tenant (year_column year) rows))
          e
        ∙ ap
            (λ b.
              if b
              then x
                ∷ select (in_year enc tenant (year_column year))
                    (delete_year enc tenant (year_column year) rows)
              else select (in_year enc tenant (year_column year))
                  (delete_year enc tenant (year_column year) rows))
            e
        ∙ in_year-deleted rows
  ]

  in_year-stored :
      (vouchers : List Voucher)
      → select (in_year enc tenant (year_column year)) (map (to_stored enc tenant year) vouchers)
        ≡ map (to_stored enc tenant year) vouchers
  in_year-stored [] = refl
  in_year-stored (v ∷ vouchers) =
      let r = to_stored enc tenant year v in
      let rest =
        select (in_year enc tenant (year_column year)) (map (to_stored enc tenant year) vouchers) in
      ap (λ b. if b then r ∷ rest else rest) (in_self tenant (year_column year))
      ∙ ap (λ xs. r ∷ xs) (in_year-stored vouchers)

  pub in_year-written :
      (rows : List (StoredVoucher J)) (vouchers : List Voucher)
      → select (in_year enc tenant (year_column year)) (
          delete_year enc tenant (year_column year) rows
          ++ map (to_stored enc tenant year) vouchers)
        ≡ map (to_stored enc tenant year) vouchers
  in_year-written rows vouchers =
      select-append (in_year enc tenant (year_column year))
        (delete_year enc tenant (year_column year) rows) (map (to_stored enc tenant year) vouchers)
      ∙ ap₂ (λ xs ys. xs ++ ys) (in_year-deleted rows) (in_year-stored vouchers)

  -- A deleted year has no row under any key.
  pub deleted-IsAbsent :
      (v : Voucher) (rows : List (StoredVoucher J))
      → IsAbsent v (delete_year enc tenant (year_column year) rows)
  deleted-IsAbsent v [] = tt
  deleted-IsAbsent v (x ∷ rows) = elim (Bool-cases (in_year enc tenant (year_column year) x)) [
    | inl e ↦
        subst
          (λ b. IsAbsent v (
            if not b
            then x ∷ delete_year enc tenant (year_column year) rows
            else delete_year enc tenant (year_column year) rows))
          (sym e) (deleted-IsAbsent v rows)
    | inr e ↦
        subst
          (λ b. IsAbsent v (
            if not b
            then x ∷ delete_year enc tenant (year_column year) rows
            else delete_year enc tenant (year_column year) rows))
          (sym e)
          (
            ap (λ b. b && (str_eq v.series x.series && eqb_ℤ (wrap32 v.number) x.number)) e,
            deleted-IsAbsent v rows,
          )
  ]

  -- Ordering the rows of some vouchers orders the vouchers.
  inserted :
      (P : Voucher → Type 0) (v : Voucher) (vouchers : List Voucher)
      → P v
      → All P vouchers
      → (sorted : List Voucher) × (insert_stored enc
            (to_stored enc tenant year v)
            (map (to_stored enc tenant year) vouchers)
          ≡ map (to_stored enc tenant year) sorted)
        × ((p : Voucher → Bool) → count p sorted ≡ weight (p v) + count p vouchers)
        × All P sorted
  unfolding insert_stored
  inserted P v [] h hs = (v ∷ [], refl, (λ p. refl), (h, tt))
  inserted P v (w ∷ vouchers) h (g, gs) =
      let (sorted, e, counts, all) = inserted P v vouchers h gs in
      let stored = to_stored enc tenant year in
      elim (Bool-cases (before enc (stored w) (stored v))) [
        | inl b ↦ (
          w ∷ sorted,
          ap
                (λ t.
                  if t
                  then stored w ∷ insert_stored enc (stored v) (map stored vouchers)
                  else stored v ∷ stored w ∷ map stored vouchers)
                b
              ∙ ap (λ xs. stored w ∷ xs) e,
          (λ p. omega (arith, counts p)),
          (g, all),
        )
        | inr b ↦ (
          v ∷ w ∷ vouchers,
          ap
              (λ t.
                if t
                then stored w ∷ insert_stored enc (stored v) (map stored vouchers)
                else stored v ∷ stored w ∷ map stored vouchers)
              b,
          (λ p. refl),
          (h, (g, gs)),
        )
      ]

  pub sorted_rows :
      (P : Voucher → Type 0) (vouchers : List Voucher)
      → All P vouchers
      → (sorted : List Voucher) × (sort_stored enc (map (to_stored enc tenant year) vouchers)
          ≡ map (to_stored enc tenant year) sorted)
        × ((p : Voucher → Bool) → count p sorted ≡ count p vouchers)
        × All P sorted
  unfolding sort_stored
  sorted_rows P [] hs = ([], refl, (λ p. refl), tt)
  sorted_rows P (v ∷ vouchers) (h, hs) =
      let (sorted, e, counts, all) = sorted_rows P vouchers hs in
      let (more, e1, counts1, all1) = inserted P v sorted h all in
      (
        more,
        ap (insert_stored enc (to_stored enc tenant year v)) e ∙ e1,
        (λ p. omega (arith, counts p, counts1 p)),
        all1,
      )
