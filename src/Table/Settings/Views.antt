-- ===== src/Table/Settings/Views.antt =====
-- settings.go: what a client sees of the settings, what the host sees, and the row that is stored.
use showdown.Base.{Bool, not, if◌then◌else◌}
use showdown.Base.Int.{ℤ, is_zero_ℤ}
use showdown.Base.Text.{Text, is_empty_text}
use showdown.Table.Settings.{Settings, variant_holdem}

-- `protocol.PublicSettings`
pub record PublicSettings : Type 0 where
  pub requires_password : Bool
  pub small_blind : ℤ
  pub big_blind : ℤ
  pub ante : ℤ
  pub turn_time : ℤ
  pub max_players : ℤ
  pub start_money : ℤ
  pub join_policy : Text
  pub allow_rebuy : Bool
  pub showdown_reveal : Text
  pub chat_enabled : Bool
  pub spectator_chat : Bool
  pub allow_rabbit_hunt : Bool
  pub allow_drawing : Bool
  pub allow_advice : Bool
  pub tournament : Bool
  pub blinds_up_minutes : ℤ
  pub blinds_up_percent : ℤ
  pub time_bank_seconds : ℤ
  pub time_bank_refill_seconds : ℤ
  pub allow_straddle : Bool
  pub run_it_twice : Bool
  pub variant : Text

-- `Settings.Public`
unfoldable pub public : Settings → PublicSettings
public s = record {
  requires_password = not (is_empty_text s.password_hash);
  small_blind = s.small_blind;
  big_blind = s.big_blind;
  ante = s.ante;
  turn_time = s.turn_time;
  max_players = s.max_players;
  start_money = s.start_money;
  join_policy = s.join_policy;
  allow_rebuy = s.allow_rebuy;
  showdown_reveal = s.showdown_reveal;
  chat_enabled = s.chat_enabled;
  spectator_chat = s.spectator_chat;
  allow_rabbit_hunt = s.allow_rabbit_hunt;
  allow_drawing = s.allow_drawing;
  allow_advice = s.allow_advice;
  tournament = s.tournament;
  blinds_up_minutes = s.blinds_up_minutes;
  blinds_up_percent = s.blinds_up_percent;
  time_bank_seconds = s.time_bank_seconds;
  time_bank_refill_seconds = s.time_bank_refill_seconds;
  allow_straddle = s.allow_straddle;
  run_it_twice = s.run_it_twice;
  variant = s.variant;
}

pub record AdminView : Type 0 where
  pub requires_password : Bool
  pub max_players : ℤ
  pub start_money : ℤ
  pub small_blind : ℤ
  pub big_blind : ℤ
  pub ante : ℤ
  pub turn_time : ℤ
  pub disconnected_turn_time : ℤ
  pub sit_out_after_missed_turns : ℤ
  pub join_policy : Text
  pub allow_spectators : Bool
  pub spectator_chat : Bool
  pub chat_enabled : Bool
  pub allow_rebuy : Bool
  pub showdown_reveal : Text
  pub auto_start : Bool
  pub hand_delay_ms : ℤ
  pub allow_rabbit_hunt : Bool
  pub allow_drawing : Bool
  pub allow_advice : Bool
  pub tournament : Bool
  pub blinds_up_minutes : ℤ
  pub blinds_up_percent : ℤ
  pub time_bank_seconds : ℤ
  pub time_bank_refill_seconds : ℤ
  pub allow_straddle : Bool
  pub run_it_twice : Bool
  pub variant : Text

-- `Settings.Admin`
unfoldable pub admin : Settings → AdminView
admin s = record {
  requires_password = not (is_empty_text s.password_hash);
  max_players = s.max_players;
  start_money = s.start_money;
  small_blind = s.small_blind;
  big_blind = s.big_blind;
  ante = s.ante;
  turn_time = s.turn_time;
  disconnected_turn_time = s.disconnected_turn_time;
  sit_out_after_missed_turns = s.sit_out_after_missed_turns;
  join_policy = s.join_policy;
  allow_spectators = s.allow_spectators;
  spectator_chat = s.spectator_chat;
  chat_enabled = s.chat_enabled;
  allow_rebuy = s.allow_rebuy;
  showdown_reveal = s.showdown_reveal;
  auto_start = s.auto_start;
  hand_delay_ms = s.hand_delay_ms;
  allow_rabbit_hunt = s.allow_rabbit_hunt;
  allow_drawing = s.allow_drawing;
  allow_advice = s.allow_advice;
  tournament = s.tournament;
  blinds_up_minutes = s.blinds_up_minutes;
  blinds_up_percent = s.blinds_up_percent;
  time_bank_seconds = s.time_bank_seconds;
  time_bank_refill_seconds = s.time_bank_refill_seconds;
  allow_straddle = s.allow_straddle;
  run_it_twice = s.run_it_twice;
  variant = s.variant;
}

-- `store.SettingsRow`
pub record SettingsRow : Type 0 where
  pub table_id : Text
  pub password_hash : Text
  pub max_players : ℤ
  pub start_money : ℤ
  pub small_blind : ℤ
  pub big_blind : ℤ
  pub ante : ℤ
  pub start_small_blind : ℤ
  pub start_big_blind : ℤ
  pub start_ante : ℤ
  pub turn_time : ℤ
  pub disconnected_turn_time : ℤ
  pub sit_out_after_missed_turns : ℤ
  pub join_policy : Text
  pub allow_spectators : Bool
  pub spectator_chat : Bool
  pub chat_enabled : Bool
  pub allow_rebuy : Bool
  pub showdown_reveal : Text
  pub auto_start : Bool
  pub hand_delay_ms : ℤ
  pub allow_rabbit_hunt : Bool
  pub allow_drawing : Bool
  pub allow_advice : Bool
  pub tournament : Bool
  pub blinds_up_minutes : ℤ
  pub blinds_up_percent : ℤ
  pub time_bank_seconds : ℤ
  pub time_bank_refill_seconds : ℤ
  pub allow_straddle : Bool
  pub run_it_twice : Bool
  pub variant : Text

-- `Settings.Row`
unfoldable pub row : Settings → Text → SettingsRow
row s id = record {
  table_id = id;
  password_hash = s.password_hash;
  max_players = s.max_players;
  start_money = s.start_money;
  small_blind = s.small_blind;
  big_blind = s.big_blind;
  ante = s.ante;
  start_small_blind = s.start_small_blind;
  start_big_blind = s.start_big_blind;
  start_ante = s.start_ante;
  turn_time = s.turn_time;
  disconnected_turn_time = s.disconnected_turn_time;
  sit_out_after_missed_turns = s.sit_out_after_missed_turns;
  join_policy = s.join_policy;
  allow_spectators = s.allow_spectators;
  spectator_chat = s.spectator_chat;
  chat_enabled = s.chat_enabled;
  allow_rebuy = s.allow_rebuy;
  showdown_reveal = s.showdown_reveal;
  auto_start = s.auto_start;
  hand_delay_ms = s.hand_delay_ms;
  allow_rabbit_hunt = s.allow_rabbit_hunt;
  allow_drawing = s.allow_drawing;
  allow_advice = s.allow_advice;
  tournament = s.tournament;
  blinds_up_minutes = s.blinds_up_minutes;
  blinds_up_percent = s.blinds_up_percent;
  time_bank_seconds = s.time_bank_seconds;
  time_bank_refill_seconds = s.time_bank_refill_seconds;
  allow_straddle = s.allow_straddle;
  run_it_twice = s.run_it_twice;
  variant = s.variant;
}

-- `SettingsFromRow`: an old row has no variant and no starting level.
unfoldable pub settings_from_row : SettingsRow → Settings
settings_from_row r = record {
  password_hash = r.password_hash;
  max_players = r.max_players;
  start_money = r.start_money;
  small_blind = r.small_blind;
  big_blind = r.big_blind;
  ante = r.ante;
  start_small_blind = (if is_zero_ℤ r.start_big_blind then r.small_blind else r.start_small_blind);
  start_big_blind = (if is_zero_ℤ r.start_big_blind then r.big_blind else r.start_big_blind);
  start_ante = (if is_zero_ℤ r.start_big_blind then r.ante else r.start_ante);
  turn_time = r.turn_time;
  disconnected_turn_time = r.disconnected_turn_time;
  sit_out_after_missed_turns = r.sit_out_after_missed_turns;
  join_policy = r.join_policy;
  allow_spectators = r.allow_spectators;
  spectator_chat = r.spectator_chat;
  chat_enabled = r.chat_enabled;
  allow_rebuy = r.allow_rebuy;
  showdown_reveal = r.showdown_reveal;
  auto_start = r.auto_start;
  hand_delay_ms = r.hand_delay_ms;
  allow_rabbit_hunt = r.allow_rabbit_hunt;
  allow_drawing = r.allow_drawing;
  allow_advice = r.allow_advice;
  tournament = r.tournament;
  blinds_up_minutes = r.blinds_up_minutes;
  blinds_up_percent = r.blinds_up_percent;
  time_bank_seconds = r.time_bank_seconds;
  time_bank_refill_seconds = r.time_bank_refill_seconds;
  allow_straddle = r.allow_straddle;
  run_it_twice = r.run_it_twice;
  variant = (if is_empty_text r.variant then variant_holdem else r.variant);
}
