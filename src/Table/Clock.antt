-- ===== src/Table/Clock.antt =====
-- table.go and hand.go: the blind schedule, the delayed start of a hand, and chips that the host
-- gives or takes. The arithmetic of the blinds is that of int64.
use showdown.Base.{
  ℕ, ◌+◌, ◌-◌, ◌*◌, Bool, true, false, not, ◌&&◌, ◌||◌, Option, none, some, ◌==◌, ltb, leb,
  if◌then◌else◌, length,
}
use showdown.Base.Int.{ℤ, pos, negsuc, pos_part, ltb_ℤ, wrap_int64, add_ℤ, mul_ℤ, quot_ℤ}
use showdown.Base.Outcome.{Outcome, ok, refused}
use showdown.Table.Settings.{Settings}
use showdown.Table.Types.{
  TablePlayer, Table, TableState, waiting, running, active, busted, Status, saved_table,
  saved_settings, audited, TableEvent, blinds_changed, chips_adjusted, start_due, Deps, TableError,
  illegal_action,
}
use showdown.Table.Seats.{
  eligible, has_hand, emit, note, schedule, is_ended, change_player, persist_player,
}

abbrev pub is_waiting : TableState → Bool
is_waiting waiting = true
is_waiting _ = false

abbrev pub is_running : TableState → Bool
is_running running = true
is_running _ = false

-- `t.tournamentLocked`
unfoldable pub tournament_locked : Table → Bool
tournament_locked t =
    t.settings.tournament && (not (is_waiting t.state) || ltb t.round_start_hand t.hand_number)

-- `t.setState`
abbrev pub set_state : TableState → TableEvent → Table → Table
set_state s e t = note saved_table (emit e (record t { state = s }))

-- `up` of `raiseBlinds`.
unfoldable pub up : ℤ → ℤ → ℤ
up percent v =
    quot_ℤ
      (wrap_int64 (add_ℤ (wrap_int64 (mul_ℤ v (wrap_int64 (add_ℤ (pos 100) percent)))) (pos 99)))
      100

-- The settings after one step of the blind schedule.
unfoldable pub raised : Settings → Settings
unfolding up
raised s = record s {
  small_blind = up s.blinds_up_percent s.small_blind;
  big_blind = up s.blinds_up_percent s.big_blind;
  ante = (if ltb_ℤ (pos 0) s.ante then up s.blinds_up_percent s.ante else s.ante);
}

-- `t.armBlindsClock`
unfoldable pub arm_blinds_clock : Deps → Table → Table
arm_blinds_clock d t = record t {
  blinds_up_at =
      (if not (ltb_ℤ (pos 0) t.settings.blinds_up_minutes) || is_ended t.state
        then 0
        else d.now + pos_part t.settings.blinds_up_minutes * 60_000);
}

-- `t.raiseBlinds`
unfoldable pub raise_blinds : Deps → Table → Table
unfolding raised arm_blinds_clock
raise_blinds d t =
    let s = raised t.settings in
    arm_blinds_clock d (
      note saved_settings
        (emit (blinds_changed s.small_blind s.big_blind s.ante) (record t { settings = s })))

-- `t.scheduleStart`
unfoldable pub schedule_start : Deps → Table → Table
schedule_start d t =
    if has_hand t || t.start_pending
    then t
    else if not (is_running t.state) && not (is_waiting t.state && t.settings.auto_start)
    then t
    else if ltb (length (eligible t)) 2
    then t
    else schedule (pos_part t.settings.hand_delay_ms) start_due (record t {
      start_pending = true;
      next_hand_at = d.now + pos_part t.settings.hand_delay_ms;
    })

-- The stack after a change, if it is not negative; a sum that is too large for an int64 is.
abbrev pub changed_stack : ℕ → ℤ → Option ℕ
changed_stack stack (pos n) =
    if ltb (stack + n) 9_223_372_036_854_775_808 then some (stack + n) else none
changed_stack stack (negsuc n) = if leb (n + 1) stack then some (stack - (n + 1)) else none

-- The status after a change of the stack.
abbrev pub changed_status : ℕ → Status → Status
changed_status stack active = if stack == 0 then busted else active
changed_status stack busted = if ltb 0 stack then active else busted
changed_status stack s = s

-- `t.applyChips`
unfoldable pub apply_chips : Deps → TablePlayer → ℤ → Table → Outcome TableError Table
unfolding schedule_start
apply_chips d p delta t = elim (changed_stack p.stack delta) [
  | none ↦ refused illegal_action
  | some n ↦ ok (
      schedule_start d (
        note audited (
          persist_player p.id (
            emit (chips_adjusted p.seat p.name delta) (
              change_player
                (λ q. record q {
                  stack = n;
                  buy_in_total = q.buy_in_total + pos_part delta;
                  status = changed_status n q.status;
                })
                p.id t)))))
]
