-- ===== src/Table/Settings/Patch.antt =====
-- settings.go: `SettingsPatch` and `Settings.Apply`.
use showdown.Base.{ℕ, Bool, List, [], ◌∷◌, ◌++◌, Option, none, some, filter}
use showdown.Base.Int.{ℤ}
use showdown.Base.Outcome.{Outcome, ok, refused}
use showdown.Base.Text.{Text}
use showdown.Table.Settings.{Settings}
use showdown.Table.Settings.Fields.{Field}
use showdown.Table.Settings.Fields
use showdown.Table.Settings.Validate.{validate}

-- A nil pointer is `none`.
pub record SettingsPatch : Type 0 where
  pub password : Option Text
  pub max_players : Option ℤ
  pub start_money : Option ℤ
  pub small_blind : Option ℤ
  pub big_blind : Option ℤ
  pub ante : Option ℤ
  pub turn_time : Option ℤ
  pub disconnected_turn_time : Option ℤ
  pub sit_out_after_missed_turns : Option ℤ
  pub join_policy : Option Text
  pub allow_spectators : Option Bool
  pub spectator_chat : Option Bool
  pub chat_enabled : Option Bool
  pub allow_rebuy : Option Bool
  pub showdown_reveal : Option Text
  pub auto_start : Option Bool
  pub hand_delay_ms : Option ℤ
  pub allow_rabbit_hunt : Option Bool
  pub allow_advice : Option Bool
  pub allow_drawing : Option Bool
  pub tournament : Option Bool
  pub blinds_up_minutes : Option ℤ
  pub blinds_up_percent : Option ℤ
  pub time_bank_seconds : Option ℤ
  pub time_bank_refill_seconds : Option ℤ
  pub allow_straddle : Option Bool
  pub run_it_twice : Option Bool
  pub variant : Option Text

-- `if p.X != nil { out.X = *p.X }`
abbrev pub or_kept {ℓ} : {A : Type ℓ} → Option A → A → A
or_kept none old = old
or_kept (some new) old = new

-- The settings with the patch merged in, before they are checked.
unfoldable pub merged : Settings → SettingsPatch → Text → Settings
merged s p password_hash = record s {
  password_hash = elim p.password [ none ↦ s.password_hash | some pw ↦ password_hash ];
  max_players = or_kept p.max_players s.max_players;
  start_money = or_kept p.start_money s.start_money;
  small_blind = or_kept p.small_blind s.small_blind;
  start_small_blind = or_kept p.small_blind s.start_small_blind;
  big_blind = or_kept p.big_blind s.big_blind;
  start_big_blind = or_kept p.big_blind s.start_big_blind;
  ante = or_kept p.ante s.ante;
  start_ante = or_kept p.ante s.start_ante;
  turn_time = or_kept p.turn_time s.turn_time;
  disconnected_turn_time = or_kept p.disconnected_turn_time s.disconnected_turn_time;
  sit_out_after_missed_turns = or_kept p.sit_out_after_missed_turns s.sit_out_after_missed_turns;
  join_policy = or_kept p.join_policy s.join_policy;
  allow_spectators = or_kept p.allow_spectators s.allow_spectators;
  spectator_chat = or_kept p.spectator_chat s.spectator_chat;
  chat_enabled = or_kept p.chat_enabled s.chat_enabled;
  allow_rebuy = or_kept p.allow_rebuy s.allow_rebuy;
  showdown_reveal = or_kept p.showdown_reveal s.showdown_reveal;
  auto_start = or_kept p.auto_start s.auto_start;
  hand_delay_ms = or_kept p.hand_delay_ms s.hand_delay_ms;
  allow_rabbit_hunt = or_kept p.allow_rabbit_hunt s.allow_rabbit_hunt;
  allow_advice = or_kept p.allow_advice s.allow_advice;
  allow_drawing = or_kept p.allow_drawing s.allow_drawing;
  tournament = or_kept p.tournament s.tournament;
  blinds_up_minutes = or_kept p.blinds_up_minutes s.blinds_up_minutes;
  blinds_up_percent = or_kept p.blinds_up_percent s.blinds_up_percent;
  time_bank_seconds = or_kept p.time_bank_seconds s.time_bank_seconds;
  time_bank_refill_seconds = or_kept p.time_bank_refill_seconds s.time_bank_refill_seconds;
  allow_straddle = or_kept p.allow_straddle s.allow_straddle;
  run_it_twice = or_kept p.run_it_twice s.run_it_twice;
  variant = or_kept p.variant s.variant;
}

-- `if p.X != nil { set("x") }`
abbrev pub mark {ℓ} : {A : Type ℓ} → Option A → Field → List Field
mark none f = []
mark (some new) f = f ∷ []

unfoldable pub changed_fields : SettingsPatch → List Field
changed_fields p =
    mark p.password Fields.password
    ++ (mark p.max_players Fields.max_players
        ++ (mark p.start_money Fields.start_money
            ++ (mark p.small_blind Fields.small_blind
                ++ (mark p.big_blind Fields.big_blind
                    ++ (mark p.ante Fields.ante
                        ++ (mark p.turn_time Fields.turn_time
                            ++ (mark p.disconnected_turn_time Fields.disconnected_turn_time
                                ++ (mark p.sit_out_after_missed_turns
                                      Fields.sit_out_after_missed_turns
                                    ++ (mark p.join_policy Fields.join_policy
                                        ++ (mark p.allow_spectators Fields.allow_spectators
                                            ++ (mark p.spectator_chat Fields.spectator_chat
                                                ++ (mark p.chat_enabled Fields.chat_enabled
                                                    ++ (mark p.allow_rebuy Fields.allow_rebuy
                                                        ++ (mark p.showdown_reveal
                                                            Fields.showdown_reveal
                                                            ++ (mark p.auto_start Fields.auto_start
                                                            ++ (mark p.hand_delay_ms
                                                            Fields.hand_delay_ms
                                                            ++ (mark p.allow_rabbit_hunt
                                                            Fields.allow_rabbit_hunt
                                                            ++ (mark p.allow_advice
                                                            Fields.allow_advice
                                                            ++ (mark p.allow_drawing
                                                            Fields.allow_drawing
                                                            ++ (mark p.tournament Fields.tournament
                                                            ++ (mark p.blinds_up_minutes
                                                            Fields.blinds_up_minutes
                                                            ++ (mark p.blinds_up_percent
                                                            Fields.blinds_up_percent
                                                            ++ (mark p.time_bank_seconds
                                                            Fields.time_bank_seconds
                                                            ++ (mark p.time_bank_refill_seconds
                                                            Fields.time_bank_refill_seconds
                                                            ++ (mark p.allow_straddle
                                                            Fields.allow_straddle
                                                            ++ (mark p.run_it_twice
                                                            Fields.run_it_twice
                                                            ++ (mark p.variant
                                                            Fields.variant)))))))))))))))))))))))))))

pub record Applied : Type 0 where
  pub settings : Settings
  pub changed : List Field
  pub next : List Field

-- `Settings.Apply`: the validated settings, or the fields that are refused.
unfoldable pub apply_patch : Settings → SettingsPatch → Text → ℕ → Outcome (List Field) Applied
unfolding merged changed_fields
apply_patch s p password_hash seated = answer (validate (merged s p password_hash) seated)
  where
    answer : List Field → Outcome (List Field) Applied
    answer [] = ok (record {
      settings = merged s p password_hash;
      changed = changed_fields p;
      next = filter Fields.applies_next_hand (changed_fields p);
    })
    answer (f ∷ fs) = refused (f ∷ fs)
