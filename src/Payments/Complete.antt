-- ===== src/Payments/Complete.antt =====
-- The transfers of a file of `GeneratePAIN001` against the invoices that it is made of.
use cobalt_dingo.Prelude.{
  ℕ, suc, ◌+◌, ◌≤◌, ◌≡◌, ◌≢◌, refl, sym, ◌∙◌, ap, ap₂, subst, Bool, true, false, Option, none, some,
  List, [], ◌∷◌, map, length, String, str_eq, str_eq_refl, arith, ok, fail_if, >>=-eq-ok, Has, All,
  Bool-cases, inl, inr,
}
use cobalt_dingo.Prelude.Int.{ℤ, pos, leb_ℤ, ◌<ℤ◌}
use cobalt_dingo.Prelude.Counts.{weight, count, count-map, count-length}
use cobalt_dingo.Invoices.{EnrichedInvoice}
use cobalt_dingo.Payments.{
  Formats, Debtor, Transfer, PmtInf, Document, no_invoices, or_nil, check_positive, group_all,
  no_groups, transfer, build_pmt_inf, build_blocks, build_document, sum_amounts, is_empty, generate,
}
use cobalt_dingo.Payments.Grouping.{count_groups, Grouped, once, grouped-Holds}

abbrev pub IsPositive : EnrichedInvoice → Type 0
IsPositive inv = pos 0 <ℤ inv.invoice.amount.minor_units

not_leb : (m : ℤ) → pos 0 <ℤ m → leb_ℤ m (pos 0) ≡ false
not_leb m h = ground arith

positive : (m : ℤ) → leb_ℤ m (pos 0) ≡ false → pos 0 <ℤ m
positive m e = ground arith

check_positive-All :
    (invoices : List EnrichedInvoice) → All IsPositive invoices → check_positive invoices ≡ ok tt
unfolding check_positive
check_positive-All [] h = refl
check_positive-All (inv ∷ invoices) h =
    let e : leb_ℤ inv.invoice.amount.minor_units (pos 0) ≡ false =
      not_leb inv.invoice.amount.minor_units h.0 in
    rw e (check_positive-All invoices h.1)

All-check_positive :
    (invoices : List EnrichedInvoice) → check_positive invoices ≡ ok tt → All IsPositive invoices
unfolding check_positive
All-check_positive [] h = tt
All-check_positive (inv ∷ invoices) h =
    elim (Bool-cases (leb_ℤ inv.invoice.amount.minor_units (pos 0))) [
      | inl e ↦ let bad = rw e at h in cc
      | inr e ↦ (positive inv.invoice.amount.minor_units e, All-check_positive invoices (rw e at h))
    ]

Has-counted : (k : String) (order : List String) → Has k order → 1 ≤ count (λ c. str_eq c k) order
Has-counted k [] h = absurd h
Has-counted k (c ∷ order) (inl e) =
    let same : weight (str_eq c k) ≡ 1 =
      subst (λ x. weight (str_eq x k) ≡ 1) e (ap weight (str_eq_refl k)) in
    omega (arith, same)
Has-counted k (c ∷ order) (inr h) = omega (arith, Has-counted k order h)

All-of :
    {P : String → Type 0} (order : List String) → ((k : String) → Has k order → P k) → All P order
All-of [] f = tt
All-of (k ∷ order) f = (f k (inl refl), All-of order (λ c h. f c (inr h)))

has_group : (o : Option (List EnrichedInvoice)) → 1 ≤ once o → o ≢ some [] → or_nil o ≢ []
has_group none one full e = omega (arith, one)
has_group (some l) one full e = full (ap (λ x. some x) e)

-- The transfers of all blocks that pass a test.
abbrev pub count_blocks : (Transfer → Bool) → List PmtInf → ℕ
count_blocks q [] = 0
count_blocks q (b ∷ blocks) = count q b.transfers + count_blocks q blocks

-- The sum of the transaction counts that the blocks announce.
abbrev pub announced : List PmtInf → ℕ
announced [] = 0
announced (b ∷ blocks) = b.nb_of_txs + announced blocks

module _ {F : Type 0} (fmt : Formats F) (debtor : Debtor) where
  block_complete :
      (idx : ℕ) (ccy : String) (l : List EnrichedInvoice)
      → l ≢ []
      → (b : PmtInf) × (build_pmt_inf fmt idx ccy l debtor ≡ ok b)
        × (b.transfers ≡ map (transfer fmt) l)
        × (b.nb_of_txs ≡ length l)
  unfolding build_pmt_inf
  block_complete idx ccy [] full = absurd (full refl)
  block_complete idx ccy (inv ∷ l) full = (_, refl, refl, refl)

  blocks_complete :
      (i : ℕ) (order : List String) (g : Grouped)
      → All (λ k. or_nil (g k) ≢ []) order
      → (blocks : List PmtInf) × (build_blocks fmt i order g debtor ≡ ok blocks)
        × ((q : Transfer → Bool)
            → count_blocks q blocks ≡ count_groups (λ x. q (transfer fmt x)) g order)
        × (announced blocks ≡ count_groups (λ x. true) g order)
  unfolding build_blocks
  blocks_complete i [] g h = ([], refl, λ q. refl, refl)
  blocks_complete i (k ∷ order) g h =
      let l = or_nil (g k) in
      let (b, built, moved, number) = block_complete (suc i) k l h.0 in
      let (blocks, rest, counts, announces) = blocks_complete (suc i) order g h.1 in
      let in_block = λ (q : Transfer → Bool). ap (count q) moved ∙ count-map (transfer fmt) q l in
      (
        b ∷ blocks,
        rw (built, rest) refl,
        λ q. ap₂ (λ m n. m + n) (in_block q) (counts q),
        ap₂ (λ m n. m + n) (number ∙ sym (count-length l)) announces,
      )

  groups-filled :
      (invoices : List EnrichedInvoice)
      → let g = group_all invoices no_groups in All (λ k. or_nil (g.grouped k) ≢ []) g.order
  groups-filled invoices =
      let g = group_all invoices no_groups in
      let h = grouped-Holds (λ x. true) invoices in
      All-of g.order (λ k listed.
        has_group (g.grouped k) (subst (λ n. 1 ≤ n) (h.listed k) (Has-counted k g.order listed))
          (h.filled k))

  document_complete :
      (invoices : List EnrichedInvoice) (msg_id created : String)
      → (doc : Document) × (build_document fmt invoices debtor msg_id created ≡ ok doc)
        × ((q : Transfer → Bool)
            → count_blocks q doc.blocks ≡ count q (map (transfer fmt) invoices))
        × (announced doc.blocks ≡ length invoices)
        × (doc.nb_of_txs ≡ length invoices)
  unfolding build_document
  document_complete invoices msg_id created =
      let g = group_all invoices no_groups in
      let (blocks, built, counts, announces) =
        blocks_complete 0 g.order g.grouped (groups-filled invoices) in
      let doc : Document = record {
        msg_id = msg_id;
        created = created;
        nb_of_txs = length invoices;
        ctrl_sum = fmt.amount (sum_amounts fmt invoices fmt.zero);
        initiator = debtor.name;
        blocks = blocks;
      } in
      (
        doc,
        rw built refl,
        λ q.
            let p = λ (x : EnrichedInvoice). q (transfer fmt x) in
            counts q
            ∙ (grouped-Holds p invoices).counted
            ∙ sym (count-map (transfer fmt) q invoices),
        announces ∙ (grouped-Holds (λ x. true) invoices).counted ∙ count-length invoices,
        refl,
      )

  -- A file is made of every non-empty list of invoices with positive amounts. Its transfers are
  -- those of the invoices, each as often: any test passes as many of the one as of the other. Each
  -- instructs the `Amount` of its invoice, the total, also where the `Balance` is less. The counts of the blocks add up to the count of the header, which is the number of invoices.
  pub generate_complete :
      (invoices : List EnrichedInvoice) (msg_id created : String)
      → is_empty fmt invoices ≡ false
      → All IsPositive invoices
      → (doc : Document) × (generate fmt invoices debtor msg_id created ≡ ok doc)
        × ((q : Transfer → Bool)
            → count_blocks q doc.blocks ≡ count q (map (transfer fmt) invoices))
        × (announced doc.blocks ≡ doc.nb_of_txs)
        × (doc.nb_of_txs ≡ length invoices)
  unfolding generate
  generate_complete invoices msg_id created full all =
      let (doc, built, counts, announces, header) = document_complete invoices msg_id created in
      let e = check_positive-All invoices all in
      (doc, rw (full, e) built, counts, announces ∙ sym header, header)

  -- No file instructs an amount of zero or less: when one is made, the amount of every invoice is
  -- positive.
  generate-IsPositive :
      (invoices : List EnrichedInvoice) (msg_id created : String) (doc : Document)
      → generate fmt invoices debtor msg_id created ≡ ok doc
      → All IsPositive invoices
  unfolding generate
  generate-IsPositive invoices msg_id created doc e =
      let (u, some_invoice, rest) = >>=-eq-ok (fail_if (is_empty fmt invoices) no_invoices) _ e in
      let (v, checked, made) = >>=-eq-ok (check_positive invoices) _ rest in
      All-check_positive invoices checked
