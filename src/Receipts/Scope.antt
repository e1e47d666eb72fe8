-- ===== src/Receipts/Scope.antt =====
-- `NewScope`, `Check` and `CollectedSet` of internal/receipts/receipts/scope.go. Texts that are
-- only passed on are strings.
use cobalt_dingo.Prelude.{
  ℕ, ◌*◌, ◌^◌, Bool, false, List, String, str_eq, if◌then◌else◌, Result, ok, err,
}
use cobalt_dingo.Prelude.Int.{ℤ, pos, leb_ℤ, ltb_ℤ}
use cobalt_dingo.Prelude.Text.{Text, is_empty_text, trim_space}
use cobalt_dingo.Dates.{Instant, is_zero, sub_time}
use cobalt_dingo.Receipts.Subject.{has_key}

pub record ScopeConfig : Type 0 where
  pub since : Instant
  pub max : ℤ
  pub folder : String
  pub collected_label : String
  pub fetch_bodies : Bool
  pub sent_folder : String

-- `Scope`, which has the fields of its configuration.
abbrev pub Scope : Type 0
Scope = ScopeConfig

pub data ScopeError : Type 0 where
  no_since no_cap : ScopeError
  window_too_wide : ℤ → ScopeError

-- `maxWindow`
abbrev pub max_window : ℤ
max_window = pos (400 * 24 * 3600 * 10 ^ 9)

-- `NewScope`, at the time `now`
unfoldable pub new_scope : Instant → ScopeConfig → Result ScopeError Scope
new_scope now cfg =
    if is_zero cfg.since
    then err no_since
    else if ltb_ℤ max_window (sub_time now cfg.since)
    then err (window_too_wide (sub_time now cfg.since))
    else if leb_ℤ cfg.max (pos 0)
    then err no_cap
    else ok (record cfg {
      collected_label =
          if str_eq cfg.collected_label "" then "cobalt-dingo/collected" else cfg.collected_label;
    })

-- `Check`, with the two numbers of the error text.
unfoldable pub check_count : Scope → ℕ → Result (ℕ × ℤ) (Unit {0})
check_count s candidates = if ltb_ℤ s.max (pos candidates) then err (candidates, s.max) else ok tt

-- `CollectedSet.Has`
unfoldable pub is_collected : Text → List Text → Bool
is_collected message_id collected =
    let id = trim_space message_id in if is_empty_text id then false else has_key id collected
