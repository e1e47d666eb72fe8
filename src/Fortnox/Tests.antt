-- ===== src/Fortnox/Tests.antt =====
-- A collection of three pages, and the counts of two filters.
use Prim.Native.String.{len}
use cobalt_dingo.Prelude.{ℕ, zero, suc, ◌≡◌, refl, some, [], ◌∷◌, String, ok, arith}
use cobalt_dingo.Prelude.Int.{pos}
use cobalt_dingo.Fortnox.{Api, get_all_pages, state_counts, total_of}
use cobalt_dingo.Fortnox.Pages.{numbered, get_all_pages-numbered}

-- The world is the number of requests.
abbrev api : Api ℕ ℕ
api = record {
  page_url = λ base page. ok "page";
  filter_url = λ path f. f;
  get = λ url w. (ok (suc w), suc w);
  total_pages = λ r. ok (pos 3);
  total_resources = λ r. ok (some (pos r));
}

counted_filters :
    state_counts api "/3/invoices" ("unpaid" ∷ "unbooked" ∷ []) 0
    ≡ (ok (("unpaid", pos 1) ∷ ("unbooked", pos 2) ∷ []), 2)
unfolding state_counts total_of
counted_filters = refl

-- A URL with as many marks as its page number, whose answer is their number.
marks : ℕ → String
marks zero = ""
marks (suc n) = String.◌∷◌ "x" (marks n)

abbrev paged : Api ℕ ℕ
paged = record api { page_url = λ base page. ok (marks page); get = λ url w. (ok (len url), suc w) }

get_all_pages-numbered_example :
    (get_all_pages paged 5 "/3/invoices" 0).0 ≡ ok (numbered (λ page. len (marks page)) 1 3)
get_all_pages-numbered_example =
    get_all_pages-numbered paged "/3/invoices" marks (λ page. len (marks page)) (λ page w. suc w) 3
      (λ page. refl) (λ page w. refl) (λ page. refl) 5 0 (omega arith) (omega arith)
