-- ===== src/Table/Play.antt =====
-- hand.go: what the timer of a table does: `advanceHand`, `revealStep`, `onTurnTimeout` with the time
-- bank, and `clearHand`.
use showdown.Base.{
  ℕ, ◌+◌, ◌*◌, Bool, true, false, not, ◌&&◌, ◌||◌, List, ◌∷◌, Option, none, some, ◌==◌, ltb, leb,
  if◌then◌else◌,
}
use showdown.Base.Int.{pos_part}
use showdown.Base.Outcome.{Outcome, ok, refused, panic}
use showdown.Poker.Types.{Phase}
use showdown.Poker.Types
use showdown.Poker.Hand.State.{Hand, Run, is_betting, is_deal_pending, is_showing}
use showdown.Poker.Hand.Turn.{timeout}
use showdown.Poker.Hand.Calls.{advance, reveal_next}
use showdown.Poker.Hand.Views.{seat_to_act}
use showdown.Table.Types.{
  TablePlayer, Table, Deps, TableError, Alarm, start_due, advance_due, reveal_due, vote_over,
  result_due, clear_due, turn_over, no_phase, in_result,
}
use showdown.Table.Seats.{player_at, change_player, schedule}
use showdown.Table.Finish.{each_seat, all_seats, end_table}
use showdown.Table.Engine.{play, resolve_run_twice, no_turn}
use showdown.Table.Deal.{apply_pending_seat_changes, maybe_start_hand, no_vote}

-- An error of the engine is logged, and nothing follows.
abbrev pub play_logged : Deps → Outcome Types.Error Run → Table → Outcome TableError Table
play_logged d (ok r) t = play d (ok r) t
play_logged d (refused e) t = ok t
play_logged d panic t = panic

-- `t.advanceHand`
unfoldable pub advance_hand : Deps → Table → Outcome TableError Table
advance_hand d t = elim t.hand [
  | none ↦ ok t
  | some h ↦
      let moved = play_logged d (advance h) t in if is_deal_pending h.phase then moved else ok t
]

-- `t.revealStep`
unfoldable pub reveal_step : Deps → Table → Outcome TableError Table
reveal_step d t = elim t.hand [
  | none ↦ ok t
  | some h ↦
      let moved = play_logged d (reveal_next h) t in if is_showing h.phase then moved else ok t
]

-- The time bank of a player who is there starts once in a turn.
abbrev pub bank_starts : Table → Option TablePlayer → Bool
bank_starts t none = false
bank_starts t (some p) = not t.time_bank_using && (p.connected && ltb 0 p.time_bank)

abbrev pub start_bank : Deps → ℕ → TablePlayer → Table → Table
start_bank d seat p t = schedule (p.time_bank * 1000) (turn_over seat) (
    change_player (λ q. record q { used_time_bank = true }) p.id
      (record t { time_bank_using = true; deadline = d.now + p.time_bank * 1000 }))

abbrev pub bank_turn : Deps → ℕ → Option TablePlayer → Table → Table
bank_turn d seat none t = t
bank_turn d seat (some p) t = start_bank d seat p t

abbrev pub spend_bank : TablePlayer → Table → Table
spend_bank p t =
    if t.time_bank_using
    then change_player (λ q. record q { time_bank = 0 }) p.id (record t { time_bank_using = false })
    else t

abbrev pub set_member : ℕ → List ℕ → List ℕ
set_member id ids = id ∷ ids

-- A missed turn; a player who misses too many sits out after the hand.
abbrev pub miss_turn : TablePlayer → Table → Table
miss_turn p t =
    let missed = change_player (λ q. record q { missed_turns = q.missed_turns + 1 }) p.id t in
    if leb (pos_part t.settings.sit_out_after_missed_turns) (p.missed_turns + 1)
    then record missed { sit_out_pending = set_member p.id t.sit_out_pending }
    else missed

abbrev pub after_bank : Option TablePlayer → Table → Table
after_bank none t = t
after_bank (some p) t = miss_turn p (spend_bank p t)

abbrev pub is_turn_of : Hand → ℕ → Bool
is_turn_of h seat = elim (seat_to_act h) [ none ↦ false | some s ↦ s == seat ]

-- `t.onTurnTimeout`
unfoldable pub on_turn_timeout : Deps → ℕ → Table → Outcome TableError Table
on_turn_timeout d seat t = elim t.hand [
  | none ↦ ok t
  | some h ↦
      let p = player_at t seat in
      let banked = bank_turn d seat p t in
      let timed = play d (timeout h seat) (after_bank p t) in
      if not (is_betting h.phase) || not (is_turn_of h seat)
      then ok t
      else if bank_starts t p
      then ok banked
      else timed
]

-- The table without the hand.
abbrev pub cleared : Table → Table
cleared t = no_vote (
    no_turn
      (record (each_seat (λ p u. change_player (λ q. record q { in_hand = false }) p.id u) all_seats
        t) { hand = none; hand_phase = no_phase; phase_ends_at = 0 }))

-- `t.clearHand`
unfoldable pub clear_hand : Deps → Table → Outcome TableError Table
unfolding end_table apply_pending_seat_changes maybe_start_hand
clear_hand d t =
    let next = maybe_start_hand d (apply_pending_seat_changes (cleared t)) in
    if t.end_after_hand
    then ok (end_table d (record (cleared t) { end_after_hand = false }))
    else next

-- The finished hand moves from the showdown to the result, for the time that was read when the hand
-- ended.
abbrev pub show_outcome : ℕ → Deps → Table → Table
show_outcome hand_delay d t =
    schedule hand_delay clear_due
      (record t { hand_phase = in_result; phase_ends_at = d.now + hand_delay })

-- What the timer does when it fires.
unfoldable pub ring : Deps → Alarm → Table → Outcome TableError Table
unfolding maybe_start_hand advance_hand reveal_step resolve_run_twice clear_hand on_turn_timeout
ring d start_due t = maybe_start_hand d (record t { start_pending = false; next_hand_at = 0 })
ring d advance_due t = advance_hand d t
ring d reveal_due t = reveal_step d t
ring d vote_over t = resolve_run_twice d t
ring d (result_due hand_delay) t = ok (show_outcome hand_delay d t)
ring d clear_due t = clear_hand d t
ring d (turn_over seat) t = on_turn_timeout d seat t

-- The timer fires: it is no longer armed unless its action arms it again.
unfoldable pub fire : Deps → Table → Outcome TableError Table
unfolding ring
fire d t = elim t.timer [ none ↦ ok t | some (delay, a) ↦ ring d a (record t { timer = none }) ]
