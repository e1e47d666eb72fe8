-- ===== src/Tools/Counted.antt =====
-- The groups and the ranks count every invoice once.
use mathlib.Core.Logic.{∥∥₁_elim}
use mathlib.Core.List.{Permᴰ, Perm}
use native.Mathlib.Nat.{ℕ_set}
use cobalt_dingo.Prelude.{
  ℕ, zero, suc, ◌+◌, ◌≤◌, ◌≡◌, refl, ap, ◌∙◌, Bool, true, List, [], ◌∷◌, map, String, length, arith,
  Bool-cases, inl, inr, ok, ◌==◌, some, Option-cases, ok-injective, >>=-eq-ok,
}
use cobalt_dingo.Prelude.Int.{ℤ, pos, negsuc, leb_ℤ}
use cobalt_dingo.Prelude.Counts.{count}
use cobalt_dingo.Dates.{Instant, parse_date}
use cobalt_dingo.Analysis.Groups.{nat_eq, ordered_keys}
use cobalt_dingo.Analysis.Partition.{with_key, group_of-group_by, sum_over, sizes-ordered_keys}
use cobalt_dingo.Tools.{Float, Reading, PartyGroup, before_group, group_for, by_party, cut_to, take}
use cobalt_dingo.Tools.Ranks.{Rank, add_rank, rank_invoices, in_window, before_rank, top_of}
use cobalt_dingo.Tools.Periods.{parse_arg}

-- The sum of a figure over a list.
abbrev pub total_of : {A : Type 0} → (A → ℕ) → List A → ℕ
total_of f [] = 0
total_of f (x ∷ xs) = f x + total_of f xs

total_of-Permᴰ :
    {A : Type 0} (f : A → ℕ) {xs ys : List A} → Permᴰ xs ys → total_of f xs ≡ total_of f ys
total_of-Permᴰ f Permᴰ.nil = refl
total_of-Permᴰ f (Permᴰ.cons e p) = omega (arith, ap f e, total_of-Permᴰ f p)
total_of-Permᴰ f (Permᴰ.swap p q) = omega (arith, ap f p, ap f q)
total_of-Permᴰ f (Permᴰ.trans p q) = total_of-Permᴰ f p ∙ total_of-Permᴰ f q

pub total_of-perm :
    {A : Type 0} (f : A → ℕ) {xs ys : List A} → Perm xs ys → total_of f xs ≡ total_of f ys
total_of-perm f p = ∥∥₁_elim p (ℕ_set _ _) (total_of-Permᴰ f)

total_of-take :
    {A : Type 0} (f : A → ℕ) (n : ℕ) (xs : List A)
    → (total_of f (take n xs) ≤ total_of f xs) × (length (take n xs) ≤ n)
total_of-take f zero xs = (omega arith, omega arith)
total_of-take f (suc n) [] = (omega arith, omega arith)
total_of-take f (suc n) (x ∷ xs) = let (a, b) = total_of-take f n xs in (omega arith, omega arith)

-- What a limit leaves: a positive one at most as many entries, and none that were not there.
abbrev pub IsLimited : {A : Type 0} → (A → ℕ) → ℤ → List A → List A → Type 0
IsLimited f limit xs ys =
    (total_of f ys ≤ total_of f xs)
    × ((n : ℕ) → limit ≡ pos (suc n) → length ys ≤ suc n)
    × (leb_ℤ limit (pos 0) ≡ true → ys ≡ xs)

pub cut_to-IsLimited :
    {A : Type 0} (f : A → ℕ) (limit : ℤ) (xs : List A) → IsLimited f limit xs (cut_to limit xs)
unfolding cut_to
cut_to-IsLimited f (negsuc n) xs = (omega arith, λ m h. absurd (ground arith), λ h. refl)
cut_to-IsLimited f (pos zero) xs = (omega arith, λ m h. absurd (ground arith), λ h. refl)
cut_to-IsLimited f (pos (suc n)) xs = (
  ground (arith, total_of-take f (suc n) xs),
  λ m h. ground (arith, total_of-take f (suc n) xs),
  λ h. ground arith,
)

abbrev pub group_count : (float : Float) → PartyGroup float → ℕ
group_count float g = g.count

module _ (float : Float) {Inv : Type 0} (r : Reading Inv) where
  total_of-groups :
      (invoices : List Inv) (keys : List ℕ)
      → total_of (group_count float) (map (group_for float r invoices) keys)
        ≡ sum_over (λ k. length (with_key r.party_number k invoices)) keys
  total_of-groups invoices [] = refl
  total_of-groups invoices (k ∷ keys) = omega (
    arith,
    ap length (group_of-group_by r.party_number k invoices),
    total_of-groups invoices keys,
  )

  -- The groups of all parties together count every unpaid invoice once, if the sort rearranges; a
  -- limit of zero or less keeps them all, and a positive one at most as many groups, whose counts
  -- come to no more than that.
  pub by_party-counts :
      (sort : (PartyGroup float → PartyGroup float → Bool)
        → List (PartyGroup float)
        → List (PartyGroup float))
      → ((groups : List (PartyGroup float)) → Perm (sort (before_group float) groups) groups)
      → (limit : ℤ) (invoices : List Inv)
      → (total_of (group_count float) (by_party float r sort (pos 0) invoices) ≡ length invoices)
        × IsLimited
            (group_count float)
            limit
            (by_party float r sort (pos 0) invoices)
            (by_party float r sort limit invoices)
  unfolding by_party cut_to
  by_party-counts sort sorts limit invoices =
      let keys : List ℕ = ordered_keys invoices r.party_number in
      let groups : List (PartyGroup float) = map (group_for float r invoices) keys in
      (
        total_of-perm (group_count float) (sorts groups)
            ∙ total_of-groups invoices keys
            ∙ sizes-ordered_keys r.party_number invoices,
        cut_to-IsLimited (group_count float) limit (sort (before_group float) groups),
      )

module _ (float : Float) where
  open float use {F}

  abbrev pub rank_count : Rank float → ℕ
  rank_count rank = rank.count

  total_of-add_rank :
      (number : ℕ) (name : String) (amount : F) (ranks : List (Rank float))
      → total_of rank_count (add_rank float number name amount ranks)
        ≡ suc (total_of rank_count ranks)
  unfolding add_rank
  total_of-add_rank number name amount [] = omega arith
  total_of-add_rank number name amount (rank ∷ ranks) = elim (Bool-cases (rank.number == number)) [
    | inl e ↦ rw e (omega arith)
    | inr e ↦ rw e (omega (arith, total_of-add_rank number name amount ranks))
  ]

  -- Whether an invoice is dated, and within the window.
  abbrev pub is_counted : {Inv : Type 0} → (Inv → String) → Instant → Instant → Inv → Bool
  is_counted date from to inv = in_window float from to (parse_date (date inv))

  total_of-rank_invoices :
      {Inv : Type 0} (r : Reading Inv) (date : Inv → String) (from to : Instant)
      (invoices : List Inv) (ranks : List (Rank float))
      → total_of rank_count (rank_invoices float r date from to invoices ranks)
        ≡ total_of rank_count ranks + count (is_counted date from to) invoices
  unfolding rank_invoices
  total_of-rank_invoices r date from to [] ranks = omega arith
  total_of-rank_invoices r date from to (inv ∷ invoices) ranks =
      let added =
        total_of-add_rank (r.party_number inv) (r.party_name inv)
          (float.from_minor (r.amount inv).minor_units) ranks in
      elim (Bool-cases (is_counted date from to inv)) [
        | inl e ↦ rw e (
            omega (
              arith,
              added,
              total_of-rank_invoices r date from to invoices (
                  add_rank float (r.party_number inv) (r.party_name inv)
                    (float.from_minor (r.amount inv).minor_units) ranks),
            ))
        | inr e ↦ rw e (omega (arith, total_of-rank_invoices r date from to invoices ranks))
      ]

  -- What a ranking of a window of dates holds.
  pub record IsRanking {Inv : Type 0} (date : Inv → String) (limit : ℤ) (from_text to_text : String)
      (invoices : List Inv) (ranks : List (Rank float)) : Type 0 where
    pub from : Instant
    pub to : Instant
    pub from_read : parse_date from_text ≡ some from
    pub to_read : parse_date to_text ≡ some to
    pub at_most : total_of rank_count ranks ≤ count (is_counted date from to) invoices
    pub short : (n : ℕ) → limit ≡ pos (suc n) → length ranks ≤ suc n
    pub whole :
        leb_ℤ limit (pos 0) ≡ true
        → total_of rank_count ranks ≡ count (is_counted date from to) invoices

  parse_arg-ok :
      (arg text : String) (t : Instant) → parse_arg arg text ≡ ok t → parse_date text ≡ some t
  unfolding parse_arg
  parse_arg-ok arg text t h = elim (Option-cases (parse_date text)) [
    | inl e ↦ let bad = rw e at h in cc
    | inr (u, e) ↦ e ∙ ap some (ok-injective u t (rw e at h))
  ]

  -- A ranking that is answered had two readable dates. Its entries count invoices within the window
  -- that they span, each at most once and, with a limit of zero or less, each exactly once; a
  -- positive limit bounds the number of entries. The sort is only known to rearrange.
  pub top_of-IsRanking :
      {Inv : Type 0} (r : Reading Inv) (date : Inv → String)
      (sort : (Rank float → Rank float → Bool) → List (Rank float) → List (Rank float))
      → ((ranks : List (Rank float)) → Perm (sort (before_rank float) ranks) ranks)
      → (limit : ℤ) (from_text to_text : String) (invoices : List Inv) (ranks : List (Rank float))
      → top_of float r date sort limit from_text to_text (ok invoices) ≡ ok ranks
      → IsRanking date limit from_text to_text invoices ranks
  unfolding top_of
  top_of-IsRanking r date sort sorts limit from_text to_text invoices ranks h =
      let (from, from_read, h1) = >>=-eq-ok (parse_arg "from_date" from_text) _ h in
      let (to, to_read, h2) = >>=-eq-ok (parse_arg "to_date" to_text) _ h1 in
      let all : List (Rank float) = rank_invoices float r date from to invoices [] in
      let same : cut_to limit (sort (before_rank float) all) ≡ ranks = ok-injective _ ranks h2 in
      let (less, short, whole) = cut_to-IsLimited rank_count limit (sort (before_rank float) all) in
      let sum =
        total_of-perm rank_count (sorts all) ∙ total_of-rank_invoices r date from to invoices [] in
      record {
        from = from;
        to = to;
        from_read = parse_arg-ok _ from_text from from_read;
        to_read = parse_arg-ok _ to_text to to_read;
        at_most = omega (arith, less, sum, ap (total_of rank_count) same);
        short = λ n e. rw same at (short n e);
        whole = λ e.
            omega (arith, sum, ap (total_of rank_count) (whole e), ap (total_of rank_count) same);
      }
