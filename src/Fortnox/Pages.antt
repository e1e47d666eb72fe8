-- ===== src/Fortnox/Pages.antt =====
-- All the pages of a collection.
use cobalt_dingo.Prelude.{
  ℕ, zero, suc, ◌+◌, ◌-◌, ◌≤◌, ◌<◌, ◌≡◌, refl, ap, ◌∙◌, subst, true, false, List, [], ◌∷◌, ◌++◌,
  String, arith, if◌then◌else◌, Result, ok,
}
use cobalt_dingo.Prelude.Int.{pos}
use cobalt_dingo.Fortnox.{
  Api, ClientError, is_last, after_page, after_get, get_page, get_pages, get_all_pages,
}

-- The pages of the given numbers, in order.
abbrev pub numbered : {R : Type 0} → (ℕ → R) → ℕ → ℕ → List R
numbered raw page zero = []
numbered raw page (suc more) = raw page ∷ numbered raw (suc page) more

append-one : {R : Type 0} (xs : List R) (y : R) (ys : List R) → (xs ++ y ∷ []) ++ ys ≡ xs ++ y ∷ ys
append-one [] y ys = refl
append-one (x ∷ xs) y ys = ap (λ zs. x ∷ zs) (append-one xs y ys)

module _ {R W : Type 0} (api : Api R W) (base : String) (url : ℕ → String) (raw : ℕ → R)
    (step : ℕ → W → W) (n : ℕ) (addressed : (page : ℕ) → api.page_url base page ≡ ok (url page))
    (answered : (page : ℕ) (w : W) → api.get (url page) w ≡ (ok (raw page), step page w))
    (counted : (page : ℕ) → api.total_pages (raw page) ≡ ok (pos n)) where
  last_page : (page : ℕ) → n ≤ page → is_last api page (pos n) ≡ true
  last_page page h = ground arith

  not_last : (page : ℕ) → 1 ≤ page → page < n → is_last api page (pos n) ≡ false
  not_last page a b = ground arith

  -- One round of the loop, up to its test.
  round :
      (fuel page : ℕ) (pages : List R) (w : W)
      → get_pages api (suc fuel) base page pages w ≡ (
          if is_last api page (pos n)
          then (ok (pages ++ raw page ∷ []), step page w)
          else get_pages api fuel base (suc page) (pages ++ raw page ∷ []) (step page w))
  unfolding get_pages
  round fuel page pages w =
      let next = get_pages api fuel base (suc page) in
      ap (λ u. get_page api page pages next u w) (addressed page)
      ∙ ap (after_get api page pages next) (answered page w)
      ∙ ap
          (λ t.
            after_page api page (pages ++ raw page ∷ []) (next (pages ++ raw page ∷ [])) t
              (step page w))
          (counted page)

  rest_of :
      (more fuel page : ℕ) (pages : List R) (w : W)
      → page + more ≡ n
      → 1 ≤ page
      → more < fuel
      → (get_pages api fuel base page pages w).0 ≡ ok (pages ++ numbered raw page (suc more))
  rest_of more zero page pages w e a short = absurd (omega arith)
  rest_of zero (suc fuel) page pages w e a short =
      let done : Result ClientError (List R) × W = (ok (pages ++ raw page ∷ []), step page w) in
      let rest = get_pages api fuel base (suc page) (pages ++ raw page ∷ []) (step page w) in
      ap (λ (p : Result ClientError (List R) × W). p.0)
        (round fuel page pages w
          ∙ ap (λ b. if b then done else rest) (last_page page (omega (arith, e))))
  rest_of (suc more) (suc fuel) page pages w e a short =
      let done : Result ClientError (List R) × W = (ok (pages ++ raw page ∷ []), step page w) in
      let rest = get_pages api fuel base (suc page) (pages ++ raw page ∷ []) (step page w) in
      ap (λ (p : Result ClientError (List R) × W). p.0)
        (round fuel page pages w
          ∙ ap (λ b. if b then done else rest) (not_last page a (omega (arith, e))))
      ∙ rest_of more fuel (suc page) (pages ++ raw page ∷ []) (step page w) (omega (arith, e))
          (omega (arith, a)) (omega (arith, short))
      ∙ ap ok (append-one pages (raw page) (numbered raw (suc page) (suc more)))

  -- When every page is answered and every answer says that there are the same number of pages, one
  -- at least, the loop ends after as many rounds and returns each page once, in order.
  pub get_all_pages-numbered :
      (fuel : ℕ) (w : W)
      → 1 ≤ n
      → n ≤ fuel
      → (get_all_pages api fuel base w).0 ≡ ok (numbered raw 1 n)
  get_all_pages-numbered fuel w some_page enough =
      let more = n - 1 in
      let same : suc more ≡ n = omega (arith, some_page) in
      subst (λ k. (get_all_pages api fuel base w).0 ≡ ok (numbered raw 1 k)) same
        (rest_of more fuel 1 [] w (omega (arith, some_page)) (omega arith)
          (omega (arith, some_page, enough)))
