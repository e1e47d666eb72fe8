-- ===== src/Tools/Totals.antt =====
-- Totals never mix currencies.
use cobalt_dingo.Prelude.{
  ◌≡◌, refl, sym, ap, ◌∙◌, true, false, Option, none, some, List, [], ◌∷◌, map, String, str_eq,
  str_eq_iff, if◌then◌else◌, Bool-cases, inl, inr, select, not_true,
}
use cobalt_dingo.Prelude.Int.{ℤ, pos}
use cobalt_dingo.Prelude.Int64.{add64}
use cobalt_dingo.Money.{Money}
use cobalt_dingo.Tools.{Float, CurrencyTotal, add_minor, add_amounts, sum_currency_totals}

find_minor : String → List (String × ℤ) → Option ℤ
find_minor c [] = none
find_minor c ((d, total) ∷ totals) =
    let rest = find_minor c totals in if str_eq d c then some total else rest

abbrev or_zero : Option ℤ → ℤ
or_zero none = pos 0
or_zero (some n) = n

-- A total, none where nothing was added, after some amounts more.
abbrev pub after_adding : Option ℤ → List Money → Option ℤ
after_adding total [] = total
after_adding total (m ∷ amounts) = after_adding (some (add64 (or_zero total) m.minor_units)) amounts

abbrev pub in_currency : String → List Money → List Money
in_currency c amounts = select (λ (m : Money). str_eq m.currency c) amounts

other_currency : (k d c : String) → str_eq k d ≡ false → str_eq k c ≡ true → str_eq d c ≡ false
other_currency k d c apart e = not_true (str_eq d c) (λ same.
    let k_is_d = (str_eq_iff k c).0 e ∙ sym ((str_eq_iff d c).0 same) in
    let bad = sym apart ∙ (str_eq_iff k d).1 k_is_d in cc)

find_minor-add_minor :
    (c d : String) (units : ℤ) (totals : List (String × ℤ))
    → find_minor c (add_minor d units totals) ≡ (
        if str_eq d c
        then some (add64 (or_zero (find_minor c totals)) units)
        else find_minor c totals)
unfolding find_minor add_minor
find_minor-add_minor c d units [] = refl
find_minor-add_minor c d units ((k, total) ∷ totals) = elim (Bool-cases (str_eq k d)) [
  | inl same ↦
      let at = (str_eq_iff k d).0 same in
      elim (Bool-cases (str_eq k c)) [
        | inl e ↦ rw (same, e, sym (ap (λ x. str_eq x c) at) ∙ e) (refl)
        | inr e ↦ rw (same, e, sym (ap (λ x. str_eq x c) at) ∙ e) (refl)
      ]
  | inr apart ↦ elim (Bool-cases (str_eq k c)) [
    | inl e ↦ rw (apart, e, other_currency k d c apart e) (refl)
    | inr e ↦ rw (apart, e) (find_minor-add_minor c d units totals)
  ]
]

find_minor-add_amounts :
    (c : String) (amounts : List Money) (totals : List (String × ℤ))
    → find_minor c (add_amounts amounts totals)
      ≡ after_adding (find_minor c totals) (in_currency c amounts)
unfolding add_amounts
find_minor-add_amounts c [] totals = refl
find_minor-add_amounts c (m ∷ amounts) totals = elim (Bool-cases (str_eq m.currency c)) [
  | inl e ↦
      let step = find_minor-add_minor c m.currency m.minor_units totals in
      find_minor-add_amounts c amounts (add_minor m.currency m.minor_units totals)
      ∙ (rw (step, e) (refl))
  | inr e ↦
      let step = find_minor-add_minor c m.currency m.minor_units totals in
      find_minor-add_amounts c amounts (add_minor m.currency m.minor_units totals)
      ∙ (rw (step, e) (refl))
]

-- No currency twice.
abbrev AllOnce : List (String × ℤ) → Type 0
AllOnce [] = Unit
AllOnce ((c, n) ∷ totals) = (find_minor c totals ≡ none) × AllOnce totals

add_minor-AllOnce :
    (c : String) (units : ℤ) (totals : List (String × ℤ))
    → AllOnce totals
    → AllOnce (add_minor c units totals)
unfolding add_minor find_minor
add_minor-AllOnce c units [] h = (refl, tt)
add_minor-AllOnce c units ((k, n) ∷ totals) (h, hs) = elim (Bool-cases (str_eq k c)) [
  | inl e ↦ rw e (h, hs)
  | inr e ↦
      let apart =
        not_true (str_eq c k)
          (λ same. let bad = sym e ∙ (str_eq_iff k c).1 (sym ((str_eq_iff c k).0 same)) in cc) in
      let step = find_minor-add_minor k c units totals in
      let gone =
        step
        ∙ ap
            (λ b.
              if b then some (add64 (or_zero (find_minor k totals)) units) else find_minor k totals)
            apart
        ∙ h in
      rw e (gone, add_minor-AllOnce c units totals hs)
]

add_amounts-AllOnce :
    (amounts : List Money) (totals : List (String × ℤ))
    → AllOnce totals
    → AllOnce (add_amounts amounts totals)
unfolding add_amounts
add_amounts-AllOnce [] totals h = h
add_amounts-AllOnce (m ∷ amounts) totals h =
    add_amounts-AllOnce amounts (add_minor m.currency m.minor_units totals)
      (add_minor-AllOnce m.currency m.minor_units totals h)

module _ (float : Float) where
  open float use {F, from_minor}

  -- Every total that is shown for a currency.
  abbrev pub totals_in : String → List (CurrencyTotal F) → List (CurrencyTotal F)
  totals_in c totals = select (λ (t : CurrencyTotal F). str_eq t.currency c) totals

  abbrev pub shown : String → Option ℤ → List (CurrencyTotal F)
  shown c none = []
  shown c (some n) = record { currency = c; total = from_minor n } ∷ []

  abbrev convert : String × ℤ → CurrencyTotal F
  convert (c, n) = record { currency = c; total = from_minor n }

  totals_in-map :
      (c : String) (totals : List (String × ℤ))
      → AllOnce totals
      → totals_in c (map convert totals) ≡ shown c (find_minor c totals)
  unfolding find_minor
  totals_in-map c [] h = refl
  totals_in-map c ((d, n) ∷ totals) (h, hs) = elim (Bool-cases (str_eq d c)) [
    | inl e ↦
        let same = (str_eq_iff d c).0 e in
        let rest =
          totals_in-map c totals hs ∙ ap (shown c) (ap (λ x. find_minor x totals) (sym same) ∙ h) in
        rw (e, rest) (ap (λ x. convert (x, n) ∷ []) same)
    | inr e ↦ rw e (totals_in-map c totals hs)
  ]

  -- Where there is an amount in a currency, exactly one total is shown for it: the conversion of
  -- the int64 sum, in order, of exactly the amounts in that currency. Where there is none, no
  -- total is shown.
  pub sum_currency_totals-in_currency :
      (c : String) (amounts : List Money)
      → totals_in c (sum_currency_totals float amounts)
        ≡ shown c (after_adding none (in_currency c amounts))
  unfolding sum_currency_totals find_minor
  sum_currency_totals-in_currency c amounts =
      totals_in-map c (add_amounts amounts []) (add_amounts-AllOnce amounts [] tt)
      ∙ ap (shown c) (find_minor-add_amounts c amounts [])
