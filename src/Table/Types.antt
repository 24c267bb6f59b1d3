-- ===== src/Table/Types.antt =====
-- table.go: what a table is made of. Player ids are opaque and only compared, so they are numbers; an
-- index of -1 and a nil pointer are `none`; times are milliseconds since the epoch.
use showdown.Base.{ℕ, Bool, List, Option}
use showdown.Base.Int.{ℤ}
use showdown.Base.Text.{Text}
use showdown.Poker.Card.{Card}
use showdown.Poker.Types
use showdown.Poker.Hand.State.{Hand}
use showdown.Table.Settings.{Settings}
use showdown.Table.Settings.Fields.{Field}

pub data TableState : Type 0 where
  waiting running paused ended : TableState

pub data Status : Type 0 where
  active sitting_out busted left : Status

-- `unset` is the empty string.
pub data Voice : Type 0 where
  unset off on muted : Voice

-- The automatic action of a player; `unarmed` is the empty string and `sit_out_fold` the internal
-- "fold".
pub data PreAction : Type 0 where
  unarmed sit_out_fold check_fold call_any : PreAction

-- What a client may ask for; `other` stands for every other string.
pub data PreActionKind : Type 0 where
  pre_none pre_check_fold pre_call_any other : PreActionKind

-- A seated player. Stacks are never negative; the strokes of the pencil are not modelled.
pub record TablePlayer : Type 0 where
  pub id : ℕ
  pub name : Text
  pub seat : ℕ
  pub stack : ℕ
  pub status : Status
  pub connected : Bool
  pub is_muted : Bool
  pub last_say : ℕ
  pub missed_turns : ℕ
  pub buy_in_total : ℕ
  pub hands_played : ℕ
  pub hands_won : ℕ
  pub biggest_pot : ℕ
  pub joined_at : ℕ
  pub left_at : ℕ
  pub avatar : ℕ
  pub hat : Text
  pub win_streak : ℕ
  pub vpip_hands : ℕ
  pub showdowns : ℕ
  pub showdowns_won : ℕ
  pub time_bank : ℕ
  pub used_time_bank : Bool
  pub place : ℕ
  pub camera : Bool
  pub account_id : Text
  pub account_handle : Text
  pub bot : Bool
  pub in_hand : Bool
  pub vpip_this_hand : Bool
  pub straddle_next : Bool
  pub leaving : Bool
  pub kicked : Bool
  pub pre_action : PreAction
  pub pending_seat : Option ℕ
  pub owes_dead_blind : Bool
  pub last_seat_change_hand : ℕ
  pub voice : Voice

-- The errors of table commands, with those of the engine and of the settings.
pub data TableError : Type 0 where
  table_ended joins_closed table_full name_taken not_seated not_between_hands : TableError
  rebuy_not_allowed invalid_state spectators_disabled locked_by_tournament : TableError
  illegal_action seat_taken rabbit_not_allowed rate_limited is_muted invalid_name : TableError
  from_engine : Types.Error → TableError
  from_settings : List Field → TableError

-- The table's own events, by their kinds.
pub data TableEvent : Type 0 where
  player_joined : (seat : ℕ) → Text → TableEvent
  player_moved : (seat from : ℕ) → Text → TableEvent
  player_sat_out player_sat_in player_busted player_left player_kicked :
      (seat : ℕ) → Text → TableEvent
  player_rebought : (seat : ℕ) → Text → ℤ → TableEvent
  chips_adjusted : (seat : ℕ) → Text → ℤ → TableEvent
  rabbit_hunt : (seat : ℕ) → Text → List Card → TableEvent
  blinds_changed : (small big ante : ℤ) → TableEvent
  settings_changed : List Field → TableEvent
  table_started table_paused table_resumed table_restarted table_over : TableEvent
  hand_voided : TableEvent
  of_engine : Types.EventBody → TableEvent

-- What a command sends out and writes down, in order: events with their sequence numbers, and the
-- rows that go to the store.
pub data Note : Type 0 where
  event : (seq : ℕ) → TableEvent → Note
  saved_player : ℕ → Note
  saved_table saved_settings saved_hand_start : Note
  saved_hand_end : (voided : Bool) → Note
  hand_results round_results chat_message audited : Note
  sessions_deleted : ℕ → Note

-- What the single timer of a table does when it fires.
pub data Alarm : Type 0 where
  start_due advance_due reveal_due vote_over clear_due : Alarm
  result_due : (hand_delay : ℕ) → Alarm
  turn_over : (seat : ℕ) → Alarm

-- `handPhase`; `no_phase` is the empty string.
pub data HandPhase : Type 0 where
  no_phase in_betting in_runout in_showdown in_result : HandPhase

pub record ChipAdjust : Type 0 where
  pub player : ℕ
  pub delta : ℤ

-- The state that the actor owns, without connections, chat, drawings and the equity display.
-- `seats` holds pointers to players, here their ids; a pointer is followed in `players`.
pub record Table : Type 0 where
  pub state : TableState
  pub ended_at : ℕ
  pub settings : Settings
  pub hand_number : ℕ
  pub button_seat : Option ℕ
  pub round_start_hand : ℕ
  pub seats : List (Option ℕ)
  pub players : List TablePlayer
  -- name keys
  pub names : List Text
  pub hand : Option Hand
  pub hand_started_at : ℕ
  -- stacks by seat
  pub hand_start_stacks : List (ℕ × ℕ)
  pub hand_phase : HandPhase
  pub deadline : ℕ
  pub to_act_seat : Option ℕ
  pub seq : ℕ
  pub pending_chips : List ChipAdjust
  pub sit_out_pending : List ℕ
  pub end_after_hand : Bool
  pub start_pending : Bool
  pub rabbit_cards : Option (List Card)
  pub blinds_up_at : ℕ
  pub blinds_paused_ms : ℕ
  pub phase_ends_at : ℕ
  pub next_hand_at : ℕ
  pub time_bank_using : Bool
  -- answers by seat, while a vote is open
  pub rit_votes : Option (List (ℕ × Bool))
  pub rit_ends_at : ℕ
  pub rit_decided : Bool
  -- the armed timer, with its delay in milliseconds
  pub timer : Option (ℕ × Alarm)
  pub log : List Note

-- `Delays`, in milliseconds.
pub record Delays : Type 0 where
  pub street : ℕ
  pub runout : ℕ
  pub showdown_time : ℕ
  pub showdown_per_hand : ℕ
  pub result_extension : ℕ
  pub run_twice_decision : ℕ
  pub pot_award : ℕ

-- `Deps`: the clock, an index below a bound, the shuffle and the delays.
pub record Deps : Type 0 where
  pub now : ℕ
  pub rand_intn : ℕ → ℕ
  pub shuffle : List Card → List Card
  pub delays : Delays
