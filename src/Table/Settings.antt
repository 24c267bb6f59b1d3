-- ===== src/Table/Settings.antt =====
-- backend/internal/table/settings.go: the settings of a table, their defaults and the views of them.
-- An `int` or `int64` is an integer of either sign, since a client may send either; a string is its
-- text.
use showdown.Base.{ℕ, Bool, true, false, List, [], ◌∷◌, Option, none, some, not, if◌then◌else◌}
use showdown.Base.Int.{ℤ, pos}
use showdown.Base.Text.{Text, text, is_empty_text, eq_text}
use showdown.Poker.Card.{Variant, holdem, royal}
pub mod Fields
pub mod Views
pub mod Validate
pub mod Patch
pub mod Valid
pub mod Checks
pub mod Laws

abbrev pub join_always : Text
join_always = text "always"

abbrev pub join_before_start : Text
join_before_start = text "before_start"

abbrev pub join_closed : Text
join_closed = text "closed"

abbrev pub show_all : Text
show_all = text "all"

abbrev pub show_winners_only : Text
show_winners_only = text "winners_only"

abbrev pub show_in_order : Text
show_in_order = text "in_order"

abbrev pub variant_holdem : Text
variant_holdem = text "holdem"

abbrev pub variant_royal : Text
variant_royal = text "royal"

abbrev pub royal_max_players : ℕ
royal_max_players = 6

pub record Settings : Type 0 where
  pub password_hash : Text
  pub max_players : ℤ
  pub start_money : ℤ
  pub small_blind : ℤ
  pub big_blind : ℤ
  pub ante : ℤ
  pub start_small_blind : ℤ
  pub start_big_blind : ℤ
  pub start_ante : ℤ
  pub turn_time : ℤ
  pub disconnected_turn_time : ℤ
  pub sit_out_after_missed_turns : ℤ
  pub join_policy : Text
  pub allow_spectators : Bool
  pub spectator_chat : Bool
  pub chat_enabled : Bool
  pub allow_rebuy : Bool
  pub showdown_reveal : Text
  pub auto_start : Bool
  pub hand_delay_ms : ℤ
  pub allow_rabbit_hunt : Bool
  pub allow_drawing : Bool
  pub allow_advice : Bool
  pub tournament : Bool
  pub blinds_up_minutes : ℤ
  pub blinds_up_percent : ℤ
  pub time_bank_seconds : ℤ
  pub time_bank_refill_seconds : ℤ
  pub allow_straddle : Bool
  pub run_it_twice : Bool
  pub variant : Text

-- `DefaultSettings`
abbrev pub default_settings : Settings
default_settings = record {
  password_hash = [];
  max_players = pos 9;
  start_money = pos 10000;
  small_blind = pos 50;
  big_blind = pos 100;
  ante = pos 0;
  start_small_blind = pos 50;
  start_big_blind = pos 100;
  start_ante = pos 0;
  turn_time = pos 30;
  disconnected_turn_time = pos 10;
  sit_out_after_missed_turns = pos 2;
  join_policy = join_always;
  allow_spectators = true;
  spectator_chat = true;
  chat_enabled = true;
  allow_rebuy = true;
  showdown_reveal = show_in_order;
  auto_start = true;
  hand_delay_ms = pos 5000;
  allow_rabbit_hunt = true;
  allow_drawing = true;
  allow_advice = true;
  tournament = false;
  blinds_up_minutes = pos 0;
  blinds_up_percent = pos 100;
  time_bank_seconds = pos 30;
  time_bank_refill_seconds = pos 1;
  allow_straddle = false;
  run_it_twice = false;
  variant = variant_holdem;
}

-- `PokerVariant`
abbrev pub poker_variant : Settings → Variant
poker_variant s = if eq_text s.variant variant_royal then royal else holdem
