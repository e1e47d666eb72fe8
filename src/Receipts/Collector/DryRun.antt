-- ===== src/Receipts/Collector/DryRun.antt =====
-- A dry run of the collector, against one whose delivery and marking are any other.
use mathlib.Core.Path.{fun_ext}
use cobalt_dingo.Prelude.{
  ℕ, suc, ◌≡◌, refl, ◌∙◌, ap, Bool, true, false, Option, none, some, List, [], ◌∷◌, length, String,
  ok, err,
}
use cobalt_dingo.Prelude.Text.{Text}
use cobalt_dingo.Prelude.Actions.{Action, and_then, attempt, raise}
use cobalt_dingo.Receipts.{Unicode, Mail}
use cobalt_dingo.Receipts.Subject.{has_subject}
use cobalt_dingo.Receipts.Router.{Destination, route}
use cobalt_dingo.Receipts.Scope.{Scope}
use cobalt_dingo.Receipts.Collector.{
  Source, CollectorResult, AccountError, Collector, start, Progress, forward, routed_to,
  unless_self, is_self_sent, process_mail, process_mails, mark, process_all, fetch_all, guarded,
  scoped, process_account, fetch_failed, guard_failed, collected_failed,
}

module _ {W : Type 0} (u : Unicode) (c : Collector W)
    (deliver : Mail → Destination → Action W String (Unit {0}))
    (mark_seen : Source → Scope → List ℕ → Action W String (Unit {0})) (src : Source)
    (dry : c.dry_run ≡ true) where
  -- The collector with another delivery and another marking.
  abbrev other : Collector W
  other = record c { deliver = deliver; mark_seen = mark_seen }

  forward-same :
      (b : Bool) (m : Mail) (dest : Destination) (r : CollectorResult) (uids : List ℕ) (w : W)
      → b ≡ true
      → forward u c src b m dest r uids w ≡ forward u other src b m dest r uids w
  forward-same true m dest r uids w e = refl
  forward-same false m dest r uids w e = cc

  routed_to-same :
      (dest : Option Destination) (hand : Bool) (m : Mail) (r : CollectorResult) (uids : List ℕ)
      (w : W)
      → routed_to u c src dest hand m r uids w ≡ routed_to u other src dest hand m r uids w
  routed_to-same none hand m r uids w = refl
  routed_to-same (some dest) true m r uids w = refl
  routed_to-same (some dest) false m r uids w = forward-same c.dry_run m dest r uids w dry

  unless_self-same :
      (self : Bool) (by_hand : List Text) (m : Mail) (r : CollectorResult) (uids : List ℕ) (w : W)
      → unless_self u c src self by_hand m r uids w
        ≡ unless_self u other src self by_hand m r uids w
  unless_self-same true by_hand m r uids w = refl
  unless_self-same false by_hand m r uids w =
      routed_to-same (route u c.router m) (has_subject u by_hand m.subject) m r uids w

  process_mails-same :
      (by_hand : List Text) (mails : List Mail) (p : Progress W)
      → process_mails u c src by_hand mails p ≡ process_mails u other src by_hand mails p
  unfolding process_mails process_mail
  process_mails-same by_hand [] p = refl
  process_mails-same by_hand (m ∷ mails) (r, uids, w) =
      process_mails-same by_hand mails (process_mail u c src by_hand m (r, uids, w))
      ∙ ap (process_mails u other src by_hand mails) (
          unless_self-same (is_self_sent u c src m) by_hand m
            (record r { processed = suc r.processed }) uids w)

  mark-same :
      (b : Bool) (scope : Scope) (uids : List ℕ) (r : CollectorResult) (w : W)
      → b ≡ true
      → mark u c src b scope uids r w ≡ mark u other src b scope uids r w
  mark-same true scope uids r w e = refl
  mark-same false scope uids r w e = cc

  process_all-same :
      (scope : Scope) (by_hand : List Text) (mails : List Mail)
      → process_all u c src scope by_hand mails ≡ process_all u other src scope by_hand mails
  unfolding process_all
  process_all-same scope by_hand mails = fun_ext λ w.
      let begin : Progress W = (start src (length by_hand), [], w) in
      let finish = λ (p : Progress W). mark u other src c.dry_run scope p.1 p.0 p.2 in
      let (r, uids, w1) = process_mails u c src by_hand mails begin in
      mark-same c.dry_run scope uids r w1 dry ∙ ap finish (process_mails-same by_hand mails begin)

  fetch_all-same :
      (scope : Scope) (collected by_hand : List Text)
      → fetch_all u c src scope collected by_hand ≡ fetch_all u other src scope collected by_hand
  unfolding fetch_all
  fetch_all-same scope collected by_hand =
      ap
        (λ (next : List Mail → Action W AccountError CollectorResult).
          and_then (attempt (c.fetch src scope collected))
            (λ x. elim x [ err e ↦ raise (fetch_failed e) | ok mails ↦ next mails ]))
        (fun_ext λ mails. process_all-same scope by_hand mails)

  guarded-same :
      (load : Option (Source → Scope → Action W String (List Text))) (scope : Scope)
      (collected : List Text)
      → guarded u c src load scope collected ≡ guarded u other src load scope collected
  guarded-same none scope collected = refl
  guarded-same (some load) scope collected =
      ap
        (λ (next : List Text → Action W AccountError CollectorResult).
          and_then (attempt (load src scope))
            (λ x. elim x [ err e ↦ raise (guard_failed e) | ok by_hand ↦ next by_hand ]))
        (fun_ext λ by_hand. fetch_all-same scope collected by_hand)

  scoped-same : (scope : Option Scope) → scoped u c src scope ≡ scoped u other src scope
  scoped-same none = refl
  scoped-same (some scope) =
      ap
        (λ (next : List Text → Action W AccountError CollectorResult).
          and_then (attempt (c.load_collected src scope))
            (λ x. elim x [ err e ↦ raise (collected_failed e) | ok collected ↦ next collected ]))
        (fun_ext λ collected. guarded-same c.load_forwarded scope collected)

  -- A dry run neither delivers nor marks a mail: with any other delivery and any other marking in
  -- their place, a run of an account gives the same result and leaves the same world.
  process_account-dry_run : (w : W) → process_account u c src w ≡ process_account u other src w
  unfolding process_account
  process_account-dry_run w =
      ap (λ (a : Action W AccountError CollectorResult). a w) (scoped-same c.scope)
