-- ===== src/Receipts/Collector.antt =====
-- `Collector` of internal/receipts/receipts/collector.go. The mail server, the delivery and the
-- marking of mail are the seams of the source: actions on a world that nothing is known of.
pub mod Accounts
pub mod DryRun
use cobalt_dingo.Prelude.{
  ℕ, suc, ◌+◌, Bool, true, false, not, ◌&&◌, Option, none, some, List, [], ◌∷◌, ◌++◌, length,
  String, if◌then◌else◌, Result, ok, err,
}
use cobalt_dingo.Prelude.Text.{Text, trim_space}
use cobalt_dingo.Prelude.Actions.{Action, pure, raise, attempt, and_then}
use cobalt_dingo.Receipts.{Unicode, Mail}
use cobalt_dingo.Receipts.Subject.{has_subject}
use cobalt_dingo.Receipts.Router.{Destination, Router, equal_fold, route}
use cobalt_dingo.Receipts.Scope.{Scope}

-- The fields of `Source` that the run reads.
pub record Source : Type 0 where
  pub name : Text
  pub username : Text

pub record RoutedMail : Type 0 where
  pub mail : Mail
  pub destination : Text

-- An error that a run collects.
pub data RunError : Type 0 where
  forward_failed : Text → String → RunError
  mark_failed : String → RunError

pub record CollectorResult : Type 0 where
  pub account : Text
  pub processed : ℕ
  pub routed : ℕ
  pub routed_mails : List RoutedMail
  pub unmatched_count : ℕ
  pub unmatched_mails : List Mail
  pub duplicate_count : ℕ
  pub duplicate_mails : List Mail
  pub forwarded_subjects : ℕ
  pub missed_count : ℕ
  pub missed_mails : List Mail
  pub self_sent_skipped : ℕ
  pub errors : List RunError

-- The errors that end the run of an account.
pub data AccountError : Type 0 where
  no_scope no_guard : AccountError
  collected_failed guard_failed fetch_failed : String → AccountError

-- The fields of `Collector`. `load_forwarded` is `none` where the source has a nil function.
pub record Collector (W : Type 0) : Type 0 where
  pub router : Router
  pub dry_run : Bool
  pub scope : Option Scope
  pub load_collected : Source → Scope → Action W String (List Text)
  pub load_forwarded : Option (Source → Scope → Action W String (List Text))
  pub fetch : Source → Scope → List Text → Action W String (List Mail)
  pub deliver : Mail → Destination → Action W String (Unit {0})
  pub mark_seen : Source → Scope → List ℕ → Action W String (Unit {0})

abbrev pub start : Source → ℕ → CollectorResult
start src subjects = record {
  account = src.name;
  processed = 0;
  routed = 0;
  routed_mails = [];
  unmatched_count = 0;
  unmatched_mails = [];
  duplicate_count = 0;
  duplicate_mails = [];
  forwarded_subjects = subjects;
  missed_count = 0;
  missed_mails = [];
  self_sent_skipped = 0;
  errors = [];
}

-- The result, the list `forwarded` and the world.
abbrev pub Progress : Type 0 → Type 0
Progress W = CollectorResult × List ℕ × W

abbrev pub count_self : CollectorResult → CollectorResult
count_self r = record r { self_sent_skipped = suc r.self_sent_skipped }

abbrev pub count_missed : Bool → Mail → CollectorResult → CollectorResult
count_missed false m r = r
count_missed true m r = record r {
  missed_count = suc r.missed_count;
  missed_mails = r.missed_mails ++ m ∷ [];
}

abbrev pub count_unmatched : Mail → CollectorResult → CollectorResult
count_unmatched m r = record r {
  unmatched_count = suc r.unmatched_count;
  unmatched_mails = r.unmatched_mails ++ m ∷ [];
}

abbrev pub count_duplicate : Mail → CollectorResult → CollectorResult
count_duplicate m r = record r {
  duplicate_count = suc r.duplicate_count;
  duplicate_mails = r.duplicate_mails ++ m ∷ [];
}

abbrev pub count_routed : Mail → Destination → CollectorResult → CollectorResult
count_routed m dest r = record r {
  routed = suc r.routed;
  routed_mails = r.routed_mails ++ record { mail = m; destination = dest.name } ∷ [];
}

abbrev pub add_error : RunError → CollectorResult → CollectorResult
add_error e r = record r { errors = r.errors ++ e ∷ [] }

module _ {W : Type 0} (u : Unicode) (c : Collector W) (src : Source) where
  -- After the delivery.
  abbrev pub delivered :
      Mail → Destination → Result String (Unit {0}) × W → CollectorResult → List ℕ → Progress W
  delivered m dest (err e, w) r uids = (add_error (forward_failed m.message_id e) r, uids, w)
  delivered m dest (ok x, w) r uids = (count_routed m dest r, uids ++ m.uid ∷ [], w)

  -- A mail that is to be forwarded; a dry run only counts it.
  abbrev pub forward : Bool → Mail → Destination → CollectorResult → List ℕ → W → Progress W
  forward true m dest r uids w = (count_routed m dest r, uids, w)
  forward false m dest r uids w = delivered m dest (c.deliver m dest w) r uids

  -- A mail that a rule matched, with whether it was forwarded by hand.
  abbrev pub matched : Bool → Mail → Destination → CollectorResult → List ℕ → W → Progress W
  matched true m dest r uids w = (count_duplicate m r, uids, w)
  matched false m dest r uids w = forward c.dry_run m dest r uids w

  abbrev pub routed_to :
      Option Destination → Bool → Mail → CollectorResult → List ℕ → W → Progress W
  routed_to none by_hand m r uids w = (count_missed by_hand m (count_unmatched m r), uids, w)
  routed_to (some dest) by_hand m r uids w = matched by_hand m dest r uids w

  -- Whether the account sent the mail itself.
  abbrev pub is_self_sent : Mail → Bool
  is_self_sent m = equal_fold u (trim_space m.from) (trim_space src.username)

  abbrev pub unless_self : Bool → List Text → Mail → CollectorResult → List ℕ → W → Progress W
  unless_self true by_hand m r uids w = (count_self r, uids, w)
  unless_self false by_hand m r uids w =
      routed_to (route u c.router m) (has_subject u by_hand m.subject) m r uids w

  -- One round of the loop over the mails.
  unfoldable pub process_mail : List Text → Mail → Progress W → Progress W
  process_mail by_hand m (r, uids, w) =
      unless_self (is_self_sent m) by_hand m (record r { processed = suc r.processed }) uids w

  unfoldable pub process_mails : List Text → List Mail → Progress W → Progress W
  process_mails by_hand [] p = p
  process_mails by_hand (m ∷ mails) p = process_mails by_hand mails (process_mail by_hand m p)

  abbrev pub marked :
      Result String (Unit {0}) × W → CollectorResult → Result AccountError CollectorResult × W
  marked (ok x, w) r = (ok r, w)
  marked (err e, w) r = (ok (add_error (mark_failed e) r), w)

  abbrev pub mark : Bool → Scope → List ℕ → CollectorResult → Action W AccountError CollectorResult
  mark true scope uids r w = (ok r, w)
  mark false scope [] r w = (ok r, w)
  mark false scope (n ∷ uids) r w = marked (c.mark_seen src scope (n ∷ uids) w) r

  -- The loop over the mails and what follows it.
  unfoldable pub process_all : Scope → List Text → List Mail → Action W AccountError CollectorResult
  process_all scope by_hand mails w =
      let (r, uids, w') = process_mails by_hand mails (start src (length by_hand), [], w) in
      mark c.dry_run scope uids r w'

  unfoldable pub fetch_all : Scope → List Text → List Text → Action W AccountError CollectorResult
  fetch_all scope collected by_hand =
      and_then (attempt (c.fetch src scope collected)) (λ x. elim x [
        | err e ↦ raise (fetch_failed e)
        | ok mails ↦ process_all scope by_hand mails
      ])

  abbrev pub guarded :
      Option (Source → Scope → Action W String (List Text))
      → Scope
      → List Text
      → Action W AccountError CollectorResult
  guarded none scope collected = raise no_guard
  guarded (some load) scope collected = and_then (attempt (load src scope)) (λ x. elim x [
    | err e ↦ raise (guard_failed e)
    | ok by_hand ↦ fetch_all scope collected by_hand
  ])

  abbrev pub scoped : Option Scope → Action W AccountError CollectorResult
  scoped none = raise no_scope
  scoped (some scope) = and_then (attempt (c.load_collected src scope)) (λ x. elim x [
    | err e ↦ raise (collected_failed e)
    | ok collected ↦ guarded c.load_forwarded scope collected
  ])

  -- `processAccount`
  unfoldable pub process_account : Action W AccountError CollectorResult
  process_account = scoped c.scope

-- `Run`: the results so far, and the account and the error that ended it.
unfoldable pub run :
    {W : Type 0}
    → Unicode
    → Collector W
    → List Source
    → W
    → (List CollectorResult × Option (Text × AccountError)) × W
run u c [] w = (([], none), w)
run u c (src ∷ sources) w =
    let (x, w1) = process_account u c src w in
    let ((results, failed), w2) = run u c sources w1 in
    elim x [ err e ↦ (([], some (src.name, e)), w1) | ok r ↦ ((r ∷ results, failed), w2) ]
