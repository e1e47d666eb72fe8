-- ===== src/Unbooked/Tests.antt =====
-- Two nights: an alert that goes out while the database fails, then a run that succeeds.
use cobalt_dingo.Prelude.{◌≡◌, refl, true, not, ◌||◌, none, some, List, [], ◌∷◌}
use cobalt_dingo.Unbooked.{
  UnbookedRef, payable, receivable, known, index, insert_ref, sort_refs, detect_unbooked_change,
}
use cobalt_dingo.Unbooked.Store.{remember, forget, remember_all, forget_all, reconcile_rows}
use cobalt_dingo.Unbooked.Watch.{
  Outside, WatchState, record_failed, reconcile, alert, announce, compare_seen, check, check_all,
}
use cobalt_dingo.Unbooked.Silence.{reported, check_all-reported, check-mirrors}

abbrev bill : UnbookedRef
bill = record { kind = payable; invoice_number = 144 }

abbrev sale : UnbookedRef
sale = record { kind = receivable; invoice_number = 144 }

abbrev empty : WatchState
empty = record { seen = []; alerts = [] }

abbrev well : Outside
well = record { reading = none; alerting = none; recording = none }

abbrev broken : Outside
broken = record { reading = none; alerting = none; recording = some "down" }

abbrev nights : List (Outside × List UnbookedRef)
nights = (broken, bill ∷ sale ∷ bill ∷ []) ∷ (well, bill ∷ []) ∷ []

abbrev told_twice : WatchState
told_twice = record { seen = bill ∷ []; alerts = (bill ∷ []) ∷ (bill ∷ sale ∷ []) ∷ [] }

nights_run : check_all nights empty ≡ told_twice
unfolding check_all check compare_seen announce alert reconcile reconcile_rows remember_all
    forget_all remember forget detect_unbooked_change sort_refs insert_ref index known
nights_run = refl

starts_told : (not (known bill []) || reported bill []) ≡ true
unfolding known
starts_told = refl

ends_known : known bill (check_all nights empty).seen ≡ true
unfolding check_all check compare_seen announce alert reconcile reconcile_rows remember_all
    forget_all remember forget detect_unbooked_change sort_refs insert_ref index known
ends_known = refl

check_all-reported_example : reported bill (check_all nights empty).alerts ≡ true
check_all-reported_example = check_all-reported nights empty bill starts_told ends_known

succeeds : (check well (bill ∷ []) empty).0.1 ≡ none
unfolding check compare_seen announce alert reconcile detect_unbooked_change sort_refs insert_ref
    index known
succeeds = refl

check-mirrors_example : known sale (check well (bill ∷ []) empty).1.seen ≡ known sale (bill ∷ [])
check-mirrors_example = check-mirrors well (bill ∷ []) empty sale succeeds

fails : (check broken (bill ∷ []) empty).0.1 ≡ some (record_failed "down")
unfolding check compare_seen announce alert reconcile detect_unbooked_change sort_refs insert_ref
    index known
fails = refl
