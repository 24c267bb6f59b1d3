-- ===== src/Table/Tests.antt =====
-- Concrete settings, and the theorems about them where their conditions hold.
use showdown.Base.{◌≡◌, ◌↔◌, refl, true, [], ◌∷◌, none, some}
use showdown.Base.Int.{pos}
use showdown.Base.Text.{text}
use showdown.Base.Outcome.{ok, refused}
use showdown.Table.Settings.{default_settings}
use showdown.Table.Settings.Fields
use showdown.Table.Settings.Fields.{turn_time, allow_straddle}
use showdown.Table.Settings.Views.{row, settings_from_row}
use showdown.Table.Settings.Patch.{SettingsPatch, Applied, merged, apply_patch, changed_fields}
use showdown.Table.Settings.Validate.{validate, validate_password}
use showdown.Table.Settings.Valid.{IsValid}
use showdown.Table.Settings.Checks.{validate-IsValid}
use showdown.Table.Settings.Laws.{stakes, apply_patch-stakes, settings_from_row-row}
mod Games

abbrev no_patch : SettingsPatch
no_patch = record {
  password = none;
  max_players = none;
  start_money = none;
  small_blind = none;
  big_blind = none;
  ante = none;
  turn_time = none;
  disconnected_turn_time = none;
  sit_out_after_missed_turns = none;
  join_policy = none;
  allow_spectators = none;
  spectator_chat = none;
  chat_enabled = none;
  allow_rebuy = none;
  showdown_reveal = none;
  auto_start = none;
  hand_delay_ms = none;
  allow_rabbit_hunt = none;
  allow_advice = none;
  allow_drawing = none;
  tournament = none;
  blinds_up_minutes = none;
  blinds_up_percent = none;
  time_bank_seconds = none;
  time_bank_refill_seconds = none;
  allow_straddle = none;
  run_it_twice = none;
  variant = none;
}

-- A shorter turn and a straddle.
abbrev faster : SettingsPatch
faster = record no_patch { turn_time = some (pos 15); allow_straddle = some true }

-- Two fields that are out of range.
abbrev wrong : SettingsPatch
wrong = record no_patch { max_players = some (pos 1); turn_time = some (pos 5) }

default_accepted : validate default_settings 2 ≡ []
unfolding validate
default_accepted = refl

default-IsValid : IsValid default_settings 2
default-IsValid = (validate-IsValid default_settings 2).0 default_accepted

wrong_refused :
    apply_patch default_settings wrong [] 2
    ≡ refused (Fields.max_players ∷ Fields.disconnected_turn_time ∷ [])
unfolding apply_patch merged changed_fields validate
wrong_refused = refl

short_password : validate_password (text "abc") ≡ Fields.password ∷ []
unfolding validate_password
short_password = refl

validate-IsValid_example : (validate default_settings 2 ≡ []) ↔ IsValid default_settings 2
validate-IsValid_example = validate-IsValid default_settings 2

abbrev faster_applied : Applied
faster_applied = record {
  settings = record default_settings { turn_time = pos 15; allow_straddle = true };
  changed = turn_time ∷ allow_straddle ∷ [];
  next = turn_time ∷ allow_straddle ∷ [];
}

faster_accepted : apply_patch default_settings faster (text "") 2 ≡ ok faster_applied
unfolding apply_patch merged changed_fields validate
faster_accepted = refl

apply_patch-stakes_example : stakes faster_applied.settings ≡ stakes default_settings
apply_patch-stakes_example =
    apply_patch-stakes default_settings faster (text "") 2 faster_applied faster_accepted
      (refl, (refl, tt))

settings_from_row-row_example :
    settings_from_row (row default_settings (text "t1")) ≡ default_settings
settings_from_row-row_example =
    settings_from_row-row default_settings 2 (text "t1") default-IsValid refl
