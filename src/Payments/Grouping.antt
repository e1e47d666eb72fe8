-- ===== src/Payments/Grouping.antt =====
-- The grouping loop of `GeneratePAIN001`, by counting: how many invoices of the groups pass a test.
use cobalt_dingo.Prelude.{
  ℕ, ◌+◌, ◌*◌, ◌≡◌, ◌≢◌, refl, sym, ◌∙◌, ap, subst, Bool, true, false, Option, none, some, List, [],
  ◌∷◌, ◌++◌, String, str_eq, str_eq_refl, str_eq_iff, arith, if◌then◌else◌, Bool-cases, inl, inr,
}
use cobalt_dingo.Prelude.Counts.{weight, count, count-append}
use cobalt_dingo.Invoices.{EnrichedInvoice}
use cobalt_dingo.Payments.{Groups, or_nil, first_seen, group, group_all, no_groups}

abbrev pub Grouped : Type 0
Grouped = String → Option (List EnrichedInvoice)

-- The entries of all groups of the given currencies that pass a test.
abbrev pub count_groups : (EnrichedInvoice → Bool) → Grouped → List String → ℕ
count_groups p g [] = 0
count_groups p g (c ∷ order) = count p (or_nil (g c)) + count_groups p g order

abbrev add_to : EnrichedInvoice → String → Grouped → Grouped
add_to inv ccy g = λ k. if str_eq k ccy then some (or_nil (g ccy) ++ inv ∷ []) else g k

count_groups-append :
    (p : EnrichedInvoice → Bool) (g : Grouped) (xs ys : List String)
    → count_groups p g (xs ++ ys) ≡ count_groups p g xs + count_groups p g ys
count_groups-append p g [] ys = omega arith
count_groups-append p g (x ∷ xs) ys = omega (arith, count_groups-append p g xs ys)

count-add_to :
    (p : EnrichedInvoice → Bool) (inv : EnrichedInvoice) (ccy k : String) (g : Grouped)
    → count p (or_nil (add_to inv ccy g k))
      ≡ count p (or_nil (g k)) + weight (str_eq k ccy) * weight (p inv)
count-add_to p inv ccy k g = elim (Bool-cases (str_eq k ccy)) [
  | inl e ↦
      let same = (str_eq_iff k ccy).0 e in
      let old = ap (λ c. count p (or_nil (g c))) same in
      rw e (omega (arith, old, count-append p (or_nil (g ccy)) (inv ∷ [])))
  | inr e ↦ rw e (omega arith)
]

add_step :
    (a b c d s n : ℕ) (t : Bool)
    → a ≡ c + s * weight t
    → b ≡ d + n * weight t
    → a + b ≡ c + d + (s + n) * weight t
add_step a b c d s n true e q = omega (arith, e, q)
add_step a b c d s n false e q = omega (arith, e, q)

count_groups-add_to :
    (p : EnrichedInvoice → Bool) (inv : EnrichedInvoice) (ccy : String) (g : Grouped)
    (order : List String)
    → count_groups p (add_to inv ccy g) order
      ≡ count_groups p g order + count (λ k. str_eq k ccy) order * weight (p inv)
count_groups-add_to p inv ccy g [] = omega arith
count_groups-add_to p inv ccy g (k ∷ order) =
    add_step (count p (or_nil (add_to inv ccy g k))) (count_groups p (add_to inv ccy g) order)
      (count p (or_nil (g k))) (count_groups p g order) (weight (str_eq k ccy))
      (count (λ k. str_eq k ccy) order) (p inv) (count-add_to p inv ccy k g)
      (count_groups-add_to p inv ccy g order)

-- A currency stands in the order once if it has a group, and otherwise not at all.
abbrev pub once : Option (List EnrichedInvoice) → ℕ
once none = 0
once (some l) = 1

-- The invariant of the loop for the invoices read so far, `done` of which pass the test.
pub record Holds (p : EnrichedInvoice → Bool) (done : ℕ) (g : Groups) : Type 0 where
  pub counted : count_groups p g.grouped g.order ≡ done
  pub listed : (c : String) → count (λ k. str_eq k c) g.order ≡ once (g.grouped c)
  pub filled : (c : String) → g.grouped c ≢ some []

add_one : (a n s w : ℕ) → a ≡ n → s ≡ 1 → a + s * w ≡ n + w
add_one a n s w e q = rw (e, q) (omega arith)

plus_none : (n : ℕ) → n ≡ n + 0
plus_none n = omega arith

none_plus : (n : ℕ) → 0 + n ≡ n
none_plus n = omega arith

plus_both : (n a b : ℕ) → n + a + b ≡ n + (a + b)
plus_both n a b = omega arith

str_eq_sym : (a b : String) → str_eq a b ≡ true → str_eq b a ≡ true
str_eq_sym a b e = (str_eq_iff b a).1 (sym ((str_eq_iff a b).0 e))

-- The order gains the currency of a new group.
first_seen-counted :
    (p : EnrichedInvoice → Bool) (g : Grouped) (ccy : String) (order : List String)
    (old : Option (List EnrichedInvoice))
    → g ccy ≡ old
    → count_groups p g (first_seen ccy old order) ≡ count_groups p g order
first_seen-counted p g ccy order (some l) e = refl
first_seen-counted p g ccy order none e =
    let new = ap (λ o. count p (or_nil o)) e in
    omega (arith, new, count_groups-append p g order (ccy ∷ []))

first_seen-found :
    (ccy : String) (order : List String) (old : Option (List EnrichedInvoice))
    → count (λ k. str_eq k ccy) order ≡ once old
    → count (λ k. str_eq k ccy) (first_seen ccy old order) ≡ 1
first_seen-found ccy order (some l) e = e
first_seen-found ccy order none e =
    let one = ap weight (str_eq_refl ccy) in
    omega (arith, e, one, count-append (λ k. str_eq k ccy) order (ccy ∷ []))

first_seen-other :
    (c ccy : String) (order : List String) (old : Option (List EnrichedInvoice))
    → str_eq ccy c ≡ false
    → count (λ k. str_eq k c) (first_seen ccy old order) ≡ count (λ k. str_eq k c) order
first_seen-other c ccy order (some l) e = refl
first_seen-other c ccy order none e =
    let no = ap weight e in omega (arith, no, count-append (λ k. str_eq k c) order (ccy ∷ []))

other_way : (a b : String) → str_eq a b ≡ false → str_eq b a ≡ false
other_way a b e = elim (Bool-cases (str_eq b a)) [
  | inl t ↦ let u = str_eq_sym b a t in cc
  | inr f ↦ f
]

snoc-not_empty :
    (xs : List EnrichedInvoice) (x : EnrichedInvoice)
    → ◌≢◌ {A = Option (List EnrichedInvoice)} (some (xs ++ x ∷ [])) (some [])
snoc-not_empty [] x e = cc
snoc-not_empty (y ∷ xs) x e = cc

group-Holds :
    (p : EnrichedInvoice → Bool) (inv : EnrichedInvoice) (n : ℕ) (g : Groups)
    → Holds p n g
    → Holds p (n + weight (p inv)) (group inv g)
unfolding group
group-Holds p inv n g h =
    let ccy = inv.invoice.amount.currency in
    let old = g.grouped ccy in
    let order = first_seen ccy old g.order in
    let found = first_seen-found ccy g.order old (h.listed ccy) in
    let kept = first_seen-counted p g.grouped ccy g.order old refl in
    let added = count_groups-add_to p inv ccy g.grouped order in
    record {
      counted =
          added
          ∙ add_one (count_groups p g.grouped order) n (count (λ k. str_eq k ccy) order)
              (weight (p inv)) (kept ∙ h.counted) found;
      listed = λ c. elim (Bool-cases (str_eq c ccy)) [
        | inl e ↦
            let same = (str_eq_iff c ccy).0 e in
            rw e (subst (λ x. count (λ k. str_eq k x) order ≡ 1) (sym same) found)
        | inr e ↦ rw e (first_seen-other c ccy g.order old (other_way c ccy e) ∙ h.listed c)
      ];
      filled = λ c. elim (Bool-cases (str_eq c ccy)) [
        | inl e ↦ rw e (snoc-not_empty (or_nil old) inv)
        | inr e ↦ rw e (h.filled c)
      ];
    }

group_all-Holds :
    (p : EnrichedInvoice → Bool) (invoices : List EnrichedInvoice) (n : ℕ) (g : Groups)
    → Holds p n g
    → Holds p (n + count p invoices) (group_all invoices g)
unfolding group_all
group_all-Holds p [] n g h = subst (λ m. Holds p m g) (plus_none n) h
group_all-Holds p (inv ∷ invoices) n g h =
    subst (λ m. Holds p m (group_all invoices (group inv g)))
      (plus_both n (weight (p inv)) (count p invoices))
      (group_all-Holds p invoices (n + weight (p inv)) (group inv g) (group-Holds p inv n g h))

pub grouped-Holds :
    (p : EnrichedInvoice → Bool) (invoices : List EnrichedInvoice)
    → Holds p (count p invoices) (group_all invoices no_groups)
grouped-Holds p invoices =
    subst (λ n. Holds p n (group_all invoices no_groups)) (none_plus (count p invoices))
      (group_all-Holds p invoices 0 no_groups
        (record { counted = refl; listed = λ c. refl; filled = λ c e. cc }))
