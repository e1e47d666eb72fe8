-- ===== src/Receipts/Tests.antt =====
-- An account with one mail that a rule routes, in a dry run and otherwise, and the subject "re: re: h".
use cobalt_dingo.Prelude.{
  ℕ, suc, ◌+◌, ◌≡◌, refl, Bool, true, false, some, List, [], ◌∷◌, String, ok, err, length,
}
use cobalt_dingo.Prelude.Int.{pos}
use cobalt_dingo.Prelude.Text.{Text, trim_space}
use cobalt_dingo.Prelude.Actions.{Action}
use cobalt_dingo.Receipts.{Unicode, Mail, to_lower}
use cobalt_dingo.Receipts.Subject.{
  normalise_subject, strip, normalise_subject-ends, IsBare, IsTrimmed,
}
use cobalt_dingo.Receipts.Router.{Destination, Router}
use cobalt_dingo.Receipts.Scope.{Scope}
use cobalt_dingo.Receipts.Collector.{Source, Collector, Progress, start, process_mails}
use cobalt_dingo.Receipts.Collector.Accounts.{IsAccounted, process_mails-IsAccounted}

abbrev unicode : Unicode
unicode = record { lower = λ c. c; fold = λ c. c }

abbrev mail : Mail
mail = record { uid = 7; message_id = 1 ∷ []; from = 97 ∷ []; subject = 104 ∷ []; date = pos 1 }

abbrev sent : Mail
sent = record mail { uid = 8; from = 109 ∷ [] }

abbrev src : Source
src = record { name = 109 ∷ []; username = 109 ∷ [] }

abbrev router : Router
router = record {
  rules =
      record { name = []; match_from = (97 ∷ []) ∷ []; match_subject = []; destination = 98 ∷ [] }
      ∷ [];
  destinations = record { name = 98 ∷ []; kind = []; address = [] } ∷ [];
}

abbrev scope : Scope
scope = record {
  since = pos 1;
  max = pos 10;
  folder = "INBOX";
  collected_label = "";
  fetch_bodies = true;
  sent_folder = "";
}

-- The world is the number of deliveries.
abbrev deliver : Mail → Destination → Action ℕ String (Unit {0})
deliver m dest w = (ok tt, suc w)

abbrev mark_seen : Source → Scope → List ℕ → Action ℕ String (Unit {0})
mark_seen s sc uids w = (ok tt, w)

abbrev collector : Bool → Collector ℕ
collector dry = record {
  router = router;
  dry_run = dry;
  scope = some scope;
  load_collected = λ s sc w. (ok [], w);
  load_forwarded = some (λ s sc w. (ok [], w));
  fetch = λ s sc collected w. (ok (mail ∷ sent ∷ []), w);
  deliver = deliver;
  mark_seen = mark_seen;
}

abbrev deliver_failing : Mail → Destination → Action ℕ String (Unit {0})
deliver_failing m dest w = (err "down", suc w)

abbrev progress : Progress ℕ
progress = process_mails unicode (collector false) src [] (mail ∷ sent ∷ []) (start src 0, [], 0)

process_mails-IsAccounted_example :
    IsAccounted unicode (collector false) src [] 2 progress.0 progress.1
process_mails-IsAccounted_example =
    process_mails-IsAccounted unicode (collector false) src [] (mail ∷ sent ∷ []) 0

abbrev subject : Text
subject = 114 ∷ 101 ∷ 58 ∷ 32 ∷ 114 ∷ 101 ∷ 58 ∷ 32 ∷ 104 ∷ []

normalise_subject-ends_example :
    (normalise_subject unicode subject
      ≡ strip
          (suc (length (to_lower unicode (trim_space subject)) + 3))
          (to_lower unicode (trim_space subject)))
    × IsBare (normalise_subject unicode subject)
    × IsTrimmed (normalise_subject unicode subject)
normalise_subject-ends_example = normalise_subject-ends unicode subject 3 (λ c. refl)
