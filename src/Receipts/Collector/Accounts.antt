-- ===== src/Receipts/Collector/Accounts.antt =====
-- What the loop over the mails of an account counts, forwards and marks.
use cobalt_dingo.Prelude.{
  ℕ, suc, ◌+◌, ◌≡◌, refl, sym, ◌∙◌, ap, subst, Bool, true, false, Option, none, some, List, [], ◌∷◌,
  ◌++◌, map, length, length-append, String, arith, Result, ok, err, All,
}
use cobalt_dingo.Prelude.Text.{Text}
use cobalt_dingo.Receipts.{Unicode, Mail}
use cobalt_dingo.Receipts.Subject.{has_subject}
use cobalt_dingo.Receipts.Router.{Destination, route}
use cobalt_dingo.Receipts.Collector.{
  Source, RoutedMail, CollectorResult, Collector, start, Progress, delivered, forward, routed_to,
  unless_self, is_self_sent, process_mail, process_mails, forward_failed,
}

All-snoc :
    {A : Type 0} (P : A → Type 0) (xs : List A) (x : A) → All P xs → P x → All P (xs ++ x ∷ [])
All-snoc P [] x h p = (p, tt)
All-snoc P (y ∷ xs) x h p = (h.0, All-snoc P xs x h.1 p)

map-snoc :
    {A B : Type 0} (f : A → B) (xs : List A) (x : A) → map f (xs ++ x ∷ []) ≡ map f xs ++ f x ∷ []
map-snoc f [] x = refl
map-snoc f (y ∷ xs) x = ap (λ l. f y ∷ l) (map-snoc f xs x)

abbrev pub uid_of : RoutedMail → ℕ
uid_of rm = rm.mail.uid

module _ {W : Type 0} (u : Unicode) (c : Collector W) (src : Source) (by_hand : List Text) where
  -- A mail that may be forwarded to the destination that it was.
  abbrev pub IsAllowed : RoutedMail → Type 0
  IsAllowed rm =
      (has_subject u by_hand rm.mail.subject ≡ false)
      × (is_self_sent u c src rm.mail ≡ false)
      × ((d : Destination) × (route u c.router rm.mail ≡ some d) × (d.name ≡ rm.destination))

  -- After `n` mails, with the list of those to be marked.
  pub record IsAccounted (n : ℕ) (r : CollectorResult) (uids : List ℕ) : Type 0 where
    pub all_read : r.processed ≡ n
    pub balance :
        r.self_sent_skipped + r.unmatched_count + r.duplicate_count + r.routed + length r.errors ≡ n
    pub listed : length r.routed_mails ≡ r.routed
    pub to_mark : c.dry_run ≡ false → uids ≡ map uid_of r.routed_mails
    pub allowed : All IsAllowed r.routed_mails

  abbrev AccountedAt : ℕ → Progress W → Type 0
  AccountedAt n p = IsAccounted n p.0 p.1

  abbrev next : CollectorResult → CollectorResult
  next r = record r { processed = suc r.processed }

  delivered-IsAccounted :
      (n : ℕ) (m : Mail) (dest : Destination) (x : Result String (Unit {0}) × W)
      (r : CollectorResult) (uids : List ℕ)
      → IsAccounted n r uids
      → IsAllowed (record { mail = m; destination = dest.name })
      → AccountedAt (suc n) (delivered u c src m dest x (next r) uids)
  delivered-IsAccounted n m dest (err e, w) r uids h a = record {
    all_read = omega (arith, h.all_read);
    balance = omega (arith, h.balance, length-append r.errors (forward_failed m.message_id e ∷ []));
    listed = h.listed;
    to_mark = h.to_mark;
    allowed = h.allowed;
  }
  delivered-IsAccounted n m dest (ok x, w) r uids h a =
      let rm : RoutedMail = record { mail = m; destination = dest.name } in
      record {
        all_read = omega (arith, h.all_read);
        balance = omega (arith, h.balance);
        listed = omega (arith, h.listed, length-append r.routed_mails (rm ∷ []));
        to_mark = λ wet.
            ap (λ l. l ++ m.uid ∷ []) (h.to_mark wet) ∙ sym (map-snoc uid_of r.routed_mails rm);
        allowed = All-snoc IsAllowed r.routed_mails rm h.allowed a;
      }

  forward-IsAccounted :
      (n : ℕ) (dry : Bool) (m : Mail) (dest : Destination) (r : CollectorResult) (uids : List ℕ)
      (w : W)
      → c.dry_run ≡ dry
      → IsAccounted n r uids
      → IsAllowed (record { mail = m; destination = dest.name })
      → AccountedAt (suc n) (forward u c src dry m dest (next r) uids w)
  forward-IsAccounted n false m dest r uids w e h a =
      delivered-IsAccounted n m dest (c.deliver m dest w) r uids h a
  forward-IsAccounted n true m dest r uids w e h a =
      let rm : RoutedMail = record { mail = m; destination = dest.name } in
      record {
        all_read = omega (arith, h.all_read);
        balance = omega (arith, h.balance);
        listed = omega (arith, h.listed, length-append r.routed_mails (rm ∷ []));
        to_mark = λ wet. cc;
        allowed = All-snoc IsAllowed r.routed_mails rm h.allowed a;
      }

  -- A round that forwards nothing adds one to one of the counts.
  idle-IsAccounted :
      (n : ℕ) (r s : CollectorResult) (uids : List ℕ)
      → IsAccounted n r uids
      → s.processed ≡ suc r.processed
      → s.self_sent_skipped + s.unmatched_count + s.duplicate_count
        ≡ suc (r.self_sent_skipped + r.unmatched_count + r.duplicate_count)
      → s.routed ≡ r.routed
      → s.errors ≡ r.errors
      → s.routed_mails ≡ r.routed_mails
      → IsAccounted (suc n) s uids
  idle-IsAccounted n r s uids h read counts routed errors mails =
      let e = ap length errors in
      let l = ap length mails in
      record {
        all_read = omega (arith, h.all_read, read);
        balance = omega (arith, h.balance, counts, routed, e);
        listed = omega (arith, h.listed, routed, l);
        to_mark = λ wet. h.to_mark wet ∙ ap (map uid_of) (sym mails);
        allowed = rw mails h.allowed;
      }

  routed_to-IsAccounted :
      (n : ℕ) (dest : Option Destination) (hand : Bool) (m : Mail) (r : CollectorResult)
      (uids : List ℕ) (w : W)
      → route u c.router m ≡ dest
      → has_subject u by_hand m.subject ≡ hand
      → is_self_sent u c src m ≡ false
      → IsAccounted n r uids
      → AccountedAt (suc n) (routed_to u c src dest hand m (next r) uids w)
  routed_to-IsAccounted n none true m r uids w e f g h =
      idle-IsAccounted n r _ uids h refl (omega arith) refl refl refl
  routed_to-IsAccounted n none false m r uids w e f g h =
      idle-IsAccounted n r _ uids h refl (omega arith) refl refl refl
  routed_to-IsAccounted n (some dest) true m r uids w e f g h =
      idle-IsAccounted n r _ uids h refl (omega arith) refl refl refl
  routed_to-IsAccounted n (some dest) false m r uids w e f g h =
      forward-IsAccounted n c.dry_run m dest r uids w refl h (f, g, (dest, e, refl))

  unless_self-IsAccounted :
      (n : ℕ) (self : Bool) (m : Mail) (r : CollectorResult) (uids : List ℕ) (w : W)
      → is_self_sent u c src m ≡ self
      → IsAccounted n r uids
      → AccountedAt (suc n) (unless_self u c src self by_hand m (next r) uids w)
  unless_self-IsAccounted n true m r uids w e h =
      idle-IsAccounted n r _ uids h refl (omega arith) refl refl refl
  unless_self-IsAccounted n false m r uids w e h =
      routed_to-IsAccounted n (route u c.router m) (has_subject u by_hand m.subject) m r uids w refl
        refl e h

  plus_none : (n : ℕ) → n ≡ n + 0
  plus_none n = omega arith

  none_plus : (n : ℕ) → 0 + n ≡ n
  none_plus n = omega arith

  plus_suc : (n k : ℕ) → suc n + k ≡ n + suc k
  plus_suc n k = omega arith

  mails-IsAccounted :
      (n : ℕ) (mails : List Mail) (p : Progress W)
      → AccountedAt n p
      → AccountedAt (n + length mails) (process_mails u c src by_hand mails p)
  unfolding process_mails process_mail
  mails-IsAccounted n [] p h = subst (λ k. AccountedAt k p) (plus_none n) h
  mails-IsAccounted n (m ∷ mails) p h =
      let (r, uids, w) = p in
      subst (λ k. AccountedAt k (process_mails u c src by_hand (m ∷ mails) p))
        (plus_suc n (length mails))
        (mails-IsAccounted (suc n) mails (process_mail u c src by_hand m p)
          (unless_self-IsAccounted n (is_self_sent u c src m) m r uids w refl h))

  -- The run of an account accounts for every mail that it fetched. Each is counted once: as sent by
  -- the account itself, as unmatched, as a duplicate, as routed or as an error. A mail is routed
  -- only to the destination that the rules give, and never one that the account sent or that was
  -- forwarded by hand. Outside a dry run the mails to be marked are exactly the routed ones, in
  -- their order.
  pub process_mails-IsAccounted :
      (mails : List Mail) (w : W)
      → let (r, uids, w') =
          process_mails u c src by_hand mails (start src (length by_hand), [], w) in
        IsAccounted (length mails) r uids
  process_mails-IsAccounted mails w =
      subst
        (λ k.
          AccountedAt k (process_mails u c src by_hand mails (start src (length by_hand), [], w)))
        (none_plus (length mails))
        (mails-IsAccounted 0 mails (start src (length by_hand), [], w)
          (record {
            all_read = refl;
            balance = refl;
            listed = refl;
            to_mark = λ e. refl;
            allowed = tt;
          }))
