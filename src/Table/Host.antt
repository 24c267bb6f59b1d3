-- ===== src/Table/Host.antt =====
-- table.go: the commands of the host, from `BlindsUp` to `Mute`, and the ones that change how a player
-- looks. The row that the audit writes is a note without its details.
use showdown.Base.{
  ℕ, ◌+◌, ◌-◌, Bool, true, false, not, ◌&&◌, List, [], ◌∷◌, ◌++◌, none, ◌==◌, ltb, leb,
  if◌then◌else◌, any,
}
use showdown.Base.Int.{ℤ, pos_part, ltb_ℤ, pos, is_zero_ℤ}
use showdown.Base.Outcome.{Outcome, ok, refused, panic, ◌>>=◌}
use showdown.Base.Text.{Text}
use showdown.Table.Settings.{Settings}
use showdown.Table.Settings.Fields.{Field, tournament_keeps}
use showdown.Table.Settings.Fields
use showdown.Table.Settings.Patch.{SettingsPatch, Applied, apply_patch}
use showdown.Table.Types.{
  TablePlayer, Table, TableState, waiting, running, paused, active, Voice, off, on, muted, unset,
  unarmed, TableError, Deps, table_ended, invalid_state, locked_by_tournament, illegal_action,
  from_settings, settings_changed, table_started, table_paused, table_resumed, table_restarted,
  saved_settings, chat_message, audited,
}
use showdown.Table.Seats.{
  change_player, seated_player, seated_count, is_ended, between_hands, hand_in_progress, emit,
  persist_player, note,
}
use showdown.Table.Clock.{
  is_waiting, is_running, tournament_locked, set_state, raise_blinds, arm_blinds_clock,
  schedule_start, apply_chips,
}
use showdown.Table.Finish.{each_seat, all_seats, end_table, void_hand}
use showdown.Table.Deal.{maybe_start_hand}
use showdown.Table.Players.{guard, avatar_count}
use showdown.Table.Requests.{remove_player}

abbrev pub is_paused : TableState → Bool
is_paused paused = true
is_paused _ = false

-- `t.BlindsUp`
unfoldable pub blinds_up : Deps → Table → Outcome TableError Table
unfolding raise_blinds
blinds_up d t = guard (is_ended t.state) table_ended (ok (raise_blinds d t))

abbrev pub is_blinds_up_minutes : Field → Bool
is_blinds_up_minutes Fields.blinds_up_minutes = true
is_blinds_up_minutes _ = false

abbrev pub announce_changed : List Field → Table → Table
announce_changed [] t = t
announce_changed (f ∷ fs) t = emit (settings_changed (f ∷ fs)) t

-- `UpdateSettings`, once the settings are accepted. The fields are not sorted by name.
unfoldable pub take_settings : Deps → Applied → Table → Table
unfolding arm_blinds_clock schedule_start
take_settings d a t =
    let t1 = record t { settings = a.settings } in
    let t3 = note saved_settings (announce_changed a.changed t1) in
    let t4 =
      if any is_blinds_up_minutes a.changed && is_running t.state
      then arm_blinds_clock d t3
      else t3 in
    schedule_start d (note audited t4)

-- `t.UpdateSettings`, without the spectators that it may turn away.
unfoldable pub update_settings : Deps → Table → SettingsPatch → Text → Outcome TableError Table
unfolding apply_patch take_settings tournament_locked
update_settings d t p hash =
    guard (is_ended t.state) table_ended (elim (apply_patch t.settings p hash (seated_count t)) [
      | ok a ↦
          guard (tournament_locked t && any tournament_keeps a.changed) locked_by_tournament
            (ok (take_settings d a t))
      | refused fs ↦ refused (from_settings fs)
      | panic ↦ panic
    ])

-- `t.Start`
unfoldable pub start : Deps → Table → Outcome TableError Table
unfolding maybe_start_hand arm_blinds_clock
start d t =
    guard (not (is_waiting t.state)) invalid_state
      (maybe_start_hand d (note audited (arm_blinds_clock d (set_state running table_started t))))

-- The blind clock stops with the table.
abbrev pub stop_clock : Deps → Table → Table
stop_clock d t =
    if ltb 0 t.blinds_up_at
    then record t { blinds_paused_ms = t.blinds_up_at - d.now; blinds_up_at = 0 }
    else t

-- `t.Pause`
unfoldable pub pause : Deps → Table → Outcome TableError Table
pause d t =
    guard (not (is_running t.state)) invalid_state
      (ok (note audited (stop_clock d (set_state paused table_paused t))))

unfoldable pub resume_clock : Deps → Table → Table
unfolding arm_blinds_clock
resume_clock d t =
    if ltb 0 t.blinds_paused_ms && ltb_ℤ (pos 0) t.settings.blinds_up_minutes
    then record t { blinds_up_at = d.now + t.blinds_paused_ms; blinds_paused_ms = 0 }
    else record (arm_blinds_clock d t) { blinds_paused_ms = 0 }

-- `t.Resume`
unfoldable pub resume : Deps → Table → Outcome TableError Table
unfolding maybe_start_hand
resume d t =
    guard (not (is_paused t.state)) invalid_state
      (maybe_start_hand d (note audited (resume_clock d (set_state running table_resumed t))))

-- `t.End`
unfoldable pub end : Deps → Table → Bool → Outcome TableError Table
unfolding void_hand end_table
end d t immediate =
    let audited_table = note audited t in
    guard (is_ended t.state) invalid_state (
      ok (
        if hand_in_progress t
        then (if immediate
            then end_table d (void_hand audited_table)
            else record audited_table { end_after_hand = true })
        else end_table d audited_table))

-- What a player starts a new round with.
unfoldable pub fresh : Settings → TablePlayer → TablePlayer
fresh s p = record p {
  stack = pos_part s.start_money;
  buy_in_total = pos_part s.start_money;
  status = active;
  place = 0;
  missed_turns = 0;
  hands_played = 0;
  hands_won = 0;
  biggest_pot = 0;
  vpip_hands = 0;
  showdowns = 0;
  showdowns_won = 0;
  win_streak = 0;
  time_bank = pos_part s.time_bank_seconds;
  in_hand = false;
  vpip_this_hand = false;
  used_time_bank = false;
  pre_action = unarmed;
  straddle_next = false;
  leaving = false;
  pending_seat = none;
  owes_dead_blind = false;
  last_seat_change_hand = 0;
}

-- The blinds that the host configured.
unfoldable pub at_start_level : Settings → Settings
at_start_level s = record s {
  small_blind = s.start_small_blind;
  big_blind = s.start_big_blind;
  ante = s.start_ante;
}

-- `t.Restart`
unfoldable pub restart : Table → Outcome TableError Table
unfolding fresh at_start_level
restart t =
    let s = at_start_level t.settings in
    let reset = note saved_settings (record (note audited t) {
      round_start_hand = t.hand_number;
      ended_at = 0;
      end_after_hand = false;
      button_seat = none;
      rabbit_cards = none;
      pending_chips = [];
      sit_out_pending = [];
      settings = s;
      blinds_up_at = 0;
      blinds_paused_ms = 0;
    }) in
    guard (not (is_ended t.state)) invalid_state (
      ok (
        set_state waiting table_restarted (
          note chat_message (
            each_seat (λ p u. persist_player p.id (change_player (fresh s) p.id u)) all_seats
              reset))))

-- `t.Kick`
unfoldable pub kick : Deps → Table → ℕ → Outcome TableError Table
unfolding remove_player
kick d t id = seated_player t id >>= λ p. remove_player d true p (note audited t)

-- `t.AdjustChips`
unfoldable pub adjust_chips : Deps → Table → ℕ → ℤ → Outcome TableError Table
unfolding apply_chips
adjust_chips d t id delta = seated_player t id >>= λ p.
    let now = apply_chips d p delta t in
    let later = note audited (record t {
      pending_chips = t.pending_chips ++ record { player = id; delta = delta } ∷ [];
    }) in
    guard (is_zero_ℤ delta) illegal_action
      (guard t.settings.tournament locked_by_tournament (if between_hands t then now else ok later))

-- `t.Mute`
unfoldable pub mute : Table → ℕ → Bool → Outcome TableError Table
mute t id muted_now = seated_player t id >>= λ p. ok (
    note audited
      (persist_player p.id (change_player (λ q. record q { is_muted = muted_now }) p.id t)))

abbrev pub is_off : Voice → Bool
is_off off = true
is_off _ = false

abbrev pub is_on : Voice → Bool
is_on on = true
is_on _ = false

abbrev pub is_unset : Voice → Bool
is_unset unset = true
is_unset _ = false

-- `t.SetVoice`; `unset` stands for every word that is no state.
unfoldable pub set_voice : Table → ℕ → Voice → Bool → Outcome TableError Table
set_voice t id v camera = seated_player t id >>= λ p.
    guard (is_unset v) illegal_action
      (ok (change_player (λ q. record q { voice = v; camera = camera && not (is_off v) }) p.id t))

-- `t.SetAvatar`; a negative number, which is refused too, has no case.
unfoldable pub set_avatar : Table → ℕ → ℕ → Outcome TableError Table
set_avatar t id avatar = seated_player t id >>= λ p.
    guard (leb avatar_count avatar) illegal_action (
      ok (
        if p.avatar == avatar
        then t
        else persist_player p.id (change_player (λ q. record q { avatar = avatar }) p.id t)))

-- `t.SetStraddle`
unfoldable pub set_straddle : Table → ℕ → Bool → Outcome TableError Table
set_straddle t id armed = seated_player t id >>= λ p.
    guard (armed && not t.settings.allow_straddle) illegal_action
      (ok (change_player (λ q. record q { straddle_next = armed }) p.id t))

-- `t.CameraOff`
unfoldable pub camera_off : Table → ℕ → Outcome TableError Table
camera_off t id = seated_player t id >>= λ p.
    guard (not p.camera) illegal_action
      (ok (note audited (change_player (λ q. record q { camera = false }) p.id t)))

-- `t.MuteVoice`
unfoldable pub mute_voice : Table → ℕ → Outcome TableError Table
mute_voice t id = seated_player t id >>= λ p.
    guard (not (is_on p.voice)) illegal_action
      (ok (note audited (change_player (λ q. record q { voice = muted }) p.id t)))
