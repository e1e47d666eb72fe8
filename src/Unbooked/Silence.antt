-- ===== src/Unbooked/Silence.antt =====
-- What a run of the watch reports and remembers, whatever fails in it, and what a sequence of runs
-- cannot lose.
use cobalt_dingo.Prelude.{
  ◌≡◌, refl, ◌∙◌, ap, subst, Bool, true, false, not, ◌&&◌, ◌||◌, Option, none, some, List, [], ◌∷◌,
  String, arith,
}
use cobalt_dingo.Unbooked.{UnbookedRef, UnbookedChange, known, detect_unbooked_change, has_alert}
use cobalt_dingo.Unbooked.Store.{remember_all, reconcile_rows}
use cobalt_dingo.Unbooked.Watch.{
  Outside, WatchState, WatchError, check, check_all, compare_seen, announce, alert, reconcile,
}
use cobalt_dingo.Unbooked.Mirror.{known-remember_all, known-forget_all, reconcile_rows-detect}

-- Whether a delivered alert named the invoice.
unfoldable pub reported : UnbookedRef → List (List UnbookedRef) → Bool
reported r [] = false
reported r (a ∷ alerts) = known r a || reported r alerts

-- An invoice that is remembered was named in a delivered alert.
abbrev pub told : UnbookedRef → WatchState → Bool
told r s = not (known r s.seen) || reported r s.alerts

known-reconcile :
    (r : UnbookedRef) (c : UnbookedChange) (rows : List UnbookedRef)
    → known r (reconcile_rows c rows)
      ≡ ((known r c.appeared || known r rows) && not (known r c.resolved))
unfolding reconcile_rows
known-reconcile r c rows =
    known-forget_all r c.resolved (remember_all c.appeared rows)
    ∙ ap (λ b. b && not (known r c.resolved)) (known-remember_all r c.appeared rows)

told-step :
    (a k l r k' : Bool)
    → k' ≡ ((a || k) && not l)
    → (not k || r) ≡ true
    → (not a || r) ≡ true
    → (not k' || r) ≡ true
told-step a k l r k' e h i = ground arith

reconcile-told :
    (f : Option String) (c : UnbookedChange) (s : WatchState) (r : UnbookedRef)
    → told r s ≡ true
    → (not (known r c.appeared) || reported r s.alerts) ≡ true
    → told r (reconcile f c s).1 ≡ true
unfolding reconcile
reconcile-told (some x) c s r h i = h
reconcile-told none c s r h i =
    told-step (known r c.appeared) (known r s.seen) (known r c.resolved) (reported r s.alerts)
      (known r (reconcile_rows c s.seen)) (known-reconcile r c s.seen) h i

tell : (a k r : Bool) → (not k || r) ≡ true → (not k || (a || r)) ≡ true
tell a k r h = ground arith

named : (a r : Bool) → (not a || (a || r)) ≡ true
named a r = ground arith

quiet :
    (xs : List UnbookedRef) (r : UnbookedRef)
    → (elim xs [ [] ↦ false | x ∷ rest ↦ true ]) ≡ false
    → known r xs ≡ false
unfolding known
quiet [] r e = refl
quiet (x ∷ xs) r e = cc

alert-told :
    (f g : Option String) (c : UnbookedChange) (s : WatchState) (r : UnbookedRef)
    → told r s ≡ true
    → told r (alert f g c s).1 ≡ true
unfolding alert reported
alert-told (some x) g c s r h = h
alert-told none g c s r h =
    reconcile-told g c (record s { alerts = c.appeared ∷ s.alerts }) r
      (tell (known r c.appeared) (known r s.seen) (reported r s.alerts) h)
      (named (known r c.appeared) (reported r s.alerts))

announce-told :
    (b : Bool) (f g : Option String) (c : UnbookedChange) (s : WatchState) (r : UnbookedRef)
    → has_alert c ≡ b
    → told r s ≡ true
    → told r (announce b f g c s).1 ≡ true
unfolding announce
announce-told true f g c s r e h = alert-told f g c s r h
announce-told false f g c s r e h = reconcile-told g c s r h (rw (quiet c.appeared r e) refl)

compare_seen-told :
    (e f g : Option String) (current : List UnbookedRef) (s : WatchState) (r : UnbookedRef)
    → told r s ≡ true
    → told r (compare_seen e f g current s).1 ≡ true
unfolding compare_seen
compare_seen-told (some x) f g current s r h = h
compare_seen-told none f g current s r h =
    let c = detect_unbooked_change s.seen current in announce-told (has_alert c) f g c s r refl h

check-told :
    (o : Outside) (current : List UnbookedRef) (s : WatchState) (r : UnbookedRef)
    → told r s ≡ true
    → told r (check o current s).1 ≡ true
unfolding check
check-told o current s r h = compare_seen-told o.reading o.alerting o.recording current s r h

check_all-told :
    (runs : List (Outside × List UnbookedRef)) (s : WatchState) (r : UnbookedRef)
    → told r s ≡ true
    → told r (check_all runs s) ≡ true
unfolding check_all
check_all-told [] s r h = h
check_all-told ((o, current) ∷ runs) s r h =
    check_all-told runs (check o current s).1 r (check-told o current s r h)

discharge : (a b : Bool) → (not a || b) ≡ true → a ≡ true → b ≡ true
discharge a b h e = ground arith

-- No obligation is silenced. Whatever fails in a sequence of runs, an invoice that the store
-- remembers at the end was named in an alert that was delivered, if that held at the start for
-- this invoice.
pub check_all-reported :
    (runs : List (Outside × List UnbookedRef)) (s : WatchState) (r : UnbookedRef)
    → (not (known r s.seen) || reported r s.alerts) ≡ true
    → known r (check_all runs s).seen ≡ true
    → reported r (check_all runs s).alerts ≡ true
check_all-reported runs s r h e =
    discharge (known r (check_all runs s).seen) (reported r (check_all runs s).alerts)
      (check_all-told runs s r h) e

-- A failed run keeps the rows, a run without an error has the change applied to them.
After : (x : Option WatchError) (c : UnbookedChange) (before rows : List UnbookedRef) → Type 0
After none c before rows = rows ≡ reconcile_rows c before
After (some e) c before rows = rows ≡ before

reconcile-After :
    (f : Option String) (c : UnbookedChange) (s : WatchState)
    → After (reconcile f c s).0.1 c s.seen (reconcile f c s).1.seen
unfolding reconcile After
reconcile-After (some x) c s = refl
reconcile-After none c s = refl

announce-After :
    (b : Bool) (f g : Option String) (c : UnbookedChange) (s : WatchState)
    → After (announce b f g c s).0.1 c s.seen (announce b f g c s).1.seen
unfolding announce alert After
announce-After false f g c s = reconcile-After g c s
announce-After true (some x) g c s = refl
announce-After true none g c s = reconcile-After g c (record s { alerts = c.appeared ∷ s.alerts })

compare_seen-After :
    (e f g : Option String) (current : List UnbookedRef) (s : WatchState)
    → After
        (compare_seen e f g current s).0.1
        (detect_unbooked_change s.seen current)
        s.seen
        (compare_seen e f g current s).1.seen
unfolding compare_seen After
compare_seen-After (some x) f g current s = refl
compare_seen-After none f g current s =
    let c = detect_unbooked_change s.seen current in announce-After (has_alert c) f g c s

-- A run without an error leaves the store with exactly the invoices that are unbooked now.
pub check-mirrors :
    (o : Outside) (current : List UnbookedRef) (s : WatchState) (r : UnbookedRef)
    → (check o current s).0.1 ≡ none
    → known r (check o current s).1.seen ≡ known r current
unfolding check After
check-mirrors o current s r e =
    let c = detect_unbooked_change s.seen current in
    let rows = (check o current s).1.seen in
    let same : rows ≡ reconcile_rows c s.seen =
      subst (λ x. After x c s.seen rows) e
        (compare_seen-After o.reading o.alerting o.recording current s) in
    ap (known r) same ∙ reconcile_rows-detect r s.seen current

-- A run with an error forgets nothing and remembers nothing.
check-error :
    (o : Outside) (current : List UnbookedRef) (s : WatchState) (x : WatchError)
    → (check o current s).0.1 ≡ some x
    → (check o current s).1.seen ≡ s.seen
unfolding check After
check-error o current s x e =
    let c = detect_unbooked_change s.seen current in
    let rows = (check o current s).1.seen in
    subst (λ y. After y c s.seen rows) e
      (compare_seen-After o.reading o.alerting o.recording current s)
