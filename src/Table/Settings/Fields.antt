-- ===== src/Table/Settings/Fields.antt =====
-- settings.go: the names of the settings, by their names on the wire.
use showdown.Base.{Bool, true, false}

pub data Field : Type 0 where
  password max_players start_money small_blind big_blind : Field
  ante turn_time disconnected_turn_time sit_out_after_missed_turns join_policy : Field
  allow_spectators spectator_chat chat_enabled allow_rebuy showdown_reveal : Field
  auto_start hand_delay_ms allow_rabbit_hunt allow_advice allow_drawing : Field
  tournament blinds_up_minutes blinds_up_percent time_bank_seconds time_bank_refill_seconds : Field
  allow_straddle run_it_twice variant : Field

-- `appliesNextHand`
abbrev pub applies_next_hand : Field → Bool
applies_next_hand small_blind = true
applies_next_hand big_blind = true
applies_next_hand ante = true
applies_next_hand turn_time = true
applies_next_hand disconnected_turn_time = true
applies_next_hand showdown_reveal = true
applies_next_hand hand_delay_ms = true
applies_next_hand allow_straddle = true
applies_next_hand run_it_twice = true
applies_next_hand variant = true
applies_next_hand _ = false

-- `slices.Contains(TournamentLocked, f)`
abbrev pub tournament_keeps : Field → Bool
tournament_keeps tournament = true
tournament_keeps start_money = true
tournament_keeps small_blind = true
tournament_keeps big_blind = true
tournament_keeps ante = true
tournament_keeps max_players = true
tournament_keeps variant = true
tournament_keeps allow_rebuy = true
tournament_keeps showdown_reveal = true
tournament_keeps blinds_up_minutes = true
tournament_keeps blinds_up_percent = true
tournament_keeps _ = false
