-- ===== src/Unbooked/Watch.antt =====
-- `UnbookedWatch.Check`, over the store and a channel for alerts.
use cobalt_dingo.Prelude.{Bool, true, false, Option, none, some, List, [], ◌∷◌, String}
use cobalt_dingo.Unbooked.{UnbookedRef, UnbookedChange, detect_unbooked_change, has_alert}
use cobalt_dingo.Unbooked.Store.{reconcile_rows}

pub data WatchError : Type 0 where
  read_failed alert_failed record_failed : String → WatchError

-- What the database and the channel do in one run: the failure of each, if it fails.
pub record Outside : Type 0 where
  pub reading : Option String
  pub alerting : Option String
  pub recording : Option String

-- The rows that are remembered, and the alerts delivered so far, latest first: each is the list of
-- the invoices that its text names.
pub record WatchState : Type 0 where
  pub seen : List UnbookedRef
  pub alerts : List (List UnbookedRef)

abbrev pub no_change : UnbookedChange
no_change = record { appeared = []; resolved = [] }

abbrev pub Outcome : Type 0
Outcome = (UnbookedChange × Option WatchError) × WatchState

-- The call of `Reconcile`, after the alert, with its failure.
unfoldable pub reconcile : Option String → UnbookedChange → WatchState → Outcome
reconcile (some e) c s = ((c, some (record_failed e)), s)
reconcile none c s = ((c, none), record s { seen = reconcile_rows c s.seen })

-- The body of `if change.HasAlert()`, with the failures of the alert and of the store.
unfoldable pub alert : Option String → Option String → UnbookedChange → WatchState → Outcome
alert (some e) recording c s = ((c, some (alert_failed e)), s)
alert none recording c s = reconcile recording c (record s { alerts = c.appeared ∷ s.alerts })

unfoldable pub announce :
    Bool → Option String → Option String → UnbookedChange → WatchState → Outcome
announce true alerting recording c s = alert alerting recording c s
announce false alerting recording c s = reconcile recording c s

-- What follows the call of `Seen`.
unfoldable pub compare_seen :
    Option String → Option String → Option String → List UnbookedRef → WatchState → Outcome
compare_seen (some e) alerting recording current s = ((no_change, some (read_failed e)), s)
compare_seen none alerting recording current s =
    let change = detect_unbooked_change s.seen current in
    announce (has_alert change) alerting recording change s

-- `Check`: the change and the error that it returns, and the state after it.
unfoldable pub check : Outside → List UnbookedRef → WatchState → Outcome
check o current s = compare_seen o.reading o.alerting o.recording current s

-- A run of the job for each entry: what failed in it, and what was unbooked.
unfoldable pub check_all : List (Outside × List UnbookedRef) → WatchState → WatchState
check_all [] s = s
check_all ((o, current) ∷ runs) s = check_all runs (check o current s).1
