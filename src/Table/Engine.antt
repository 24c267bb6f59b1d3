-- ===== src/Table/Engine.antt =====
-- hand.go: the table around a running hand: `applyEngineEvents`, `applyPreAction`, `afterEngine`, the
-- vote on running it twice, and what the timers do to the hand.
use showdown.Base.{
  ℕ, zero, suc, ◌+◌, ◌-◌, ◌*◌, max, Bool, true, false, not, ◌&&◌, ◌||◌, List, [], ◌∷◌, ◌++◌, Option,
  none, some, ◌==◌, ltb, if◌then◌else◌, length, filter, find, all,
}
use showdown.Base.Int.{pos, pos_part}
use showdown.Base.Outcome.{Outcome, ok, refused, panic, ◌>>=◌}
use showdown.Poker.Types.{
  Results, Event, EventBody, acted, Street, preflop, ActionKind, Action, fold, check, call, bet,
  raise, betting, deal_pending, showing, result, Options,
}
use showdown.Poker.Types
use showdown.Poker.Hand.State.{Hand, Run}
use showdown.Poker.Hand.Moves.{options}
use showdown.Poker.Hand.Turn.{apply, timeout}
use showdown.Poker.Hand.Calls.{can_run_it_twice, run_it_twice, showdown_pending}
use showdown.Poker.Hand.Views.{state, seat_to_act}
use showdown.Table.Types.{
  TablePlayer, Table, Deps, TableError, from_engine, PreAction, unarmed, sit_out_fold, check_fold,
  call_any, event, of_engine, in_betting, in_runout, in_showdown, in_result, advance_due,
  reveal_due, vote_over, result_due, clear_due, turn_over,
}
use showdown.Table.Seats.{change_player, player_at, seated, schedule}
use showdown.Table.Finish.{is_contested, finish_hand}

abbrev pub engine : {A : Type 0} → Outcome Types.Error A → Outcome TableError A
engine (ok a) = ok a
engine (refused e) = refused (from_engine e)
engine panic = panic

-- A bet, a call or a raise before the flop; blinds do not count.
abbrev pub is_voluntary : Street → ActionKind → Bool
is_voluntary preflop call = true
is_voluntary preflop bet = true
is_voluntary preflop raise = true
is_voluntary _ _ = false

abbrev pub voluntary_seat : EventBody → Option ℕ
voluntary_seat (acted seat kind amount all_in street) =
    if is_voluntary street kind then some seat else none
voluntary_seat _ = none

-- The player in a seat put chips in voluntarily.
abbrev pub note_voluntary : Option ℕ → Table → Table
note_voluntary none t = t
note_voluntary (some seat) t = elim (player_at t seat) [
  | none ↦ t
  | some p ↦ change_player (λ q. record q { vpip_this_hand = true }) p.id t
]

-- `t.applyEngineEvents`: the events keep the sequence numbers of the engine.
abbrev pub apply_events : List Event → Table → Table
apply_events [] t = t
apply_events (e ∷ es) t = apply_events es (record (note_voluntary (voluntary_seat e.body) t) {
  seq = max t.seq e.seq;
  log = t.log ++ event e.seq (of_engine e.body) ∷ [];
})

-- The hand and the events of a call of the engine.
abbrev pub take_run : Run → Table → Table
take_run (h, es) t = apply_events es (record t { hand = some h })

-- The action that an armed player takes.
abbrev pub pre_action_of : PreAction → Options → Option ActionKind
pre_action_of unarmed o = none
pre_action_of sit_out_fold o = some fold
pre_action_of check_fold o = some (if o.check then check else fold)
pre_action_of call_any o = some (if o.check then check else if ltb 0 o.call then call else fold)

abbrev pub is_armed : PreAction → Bool
is_armed unarmed = false
is_armed _ = true

abbrev pub after_use : PreAction → PreAction
after_use sit_out_fold = unarmed
after_use k = k

-- The engine's part of `applyPreAction`: an action that it refuses falls back to the timeout.
unfoldable pub act_armed : Hand → ℕ → ActionKind → Outcome TableError Run
act_armed h seat kind = elim (apply h seat (record { kind = kind; amount = pos 0 })) [
  | ok r ↦ ok r
  | refused e ↦ engine (timeout h seat)
  | panic ↦ panic
]

-- What an armed player does with the options that there are.
unfoldable pub act_on : Hand → TablePlayer → Table → Options → Outcome TableError Table
unfolding act_armed
act_on h p used o = elim (pre_action_of p.pre_action o) [
  | none ↦ ok used
  | some kind ↦ act_armed h p.seat kind >>= λ r. ok (take_run r used)
]

-- `t.applyPreAction`
unfoldable pub apply_pre_action : Hand → TablePlayer → Table → Outcome TableError Table
unfolding act_on options
apply_pre_action h p t =
    let used = change_player (λ q. record q { pre_action = after_use q.pre_action }) p.id t in
    engine (options h p.seat) >>= act_on h p used

abbrev pub has_folded : Hand → ℕ → Bool
has_folded h seat = elim (state h seat) [ none ↦ true | some s ↦ s.folded ]

-- `t.liveSeats`
abbrev pub live_seats : Hand → Table → ℕ
live_seats h t = length (filter (λ p. p.in_hand && not (has_folded h p.seat)) (seated t))

-- Everyone agreed who was asked so far or has to be.
abbrev pub agreed : List (ℕ × Bool) → ℕ → Bool
agreed votes seat = elim (find (λ v. v.0 == seat) votes) [ none ↦ false | some v ↦ v.1 ]

-- `t.ritVoteComplete`
abbrev pub vote_complete : Hand → List (ℕ × Bool) → Table → Bool
vote_complete h votes t =
    all (λ p. not (p.in_hand && not (has_folded h p.seat)) || agreed votes p.seat) (seated t)

-- `t.resolveRunTwice`
unfoldable pub resolve_run_twice : Deps → Table → Outcome TableError Table
resolve_run_twice d t = elim t.hand [
  | none ↦ ok t
  | some h ↦ elim t.rit_votes [
    | none ↦ ok t
    | some votes ↦
        let close = λ (k : Hand).
          schedule d.delays.runout advance_due
            (record t { hand = some k; rit_votes = none; rit_ends_at = 0; rit_decided = true }) in
        if vote_complete h votes t
        then elim (run_it_twice h) [
          | ok k ↦ ok (close k)
          | refused e ↦ ok (close h)
          | panic ↦ panic
        ]
        else ok (close h)
  ]
]

-- The number of hands shown at the showdown.
abbrev pub revealed_count : Results → ℕ
revealed_count r = length (filter (λ (s : Types.SeatResult). s.revealed) r.seats)

-- How long a contested hand stays on the screen before its result.
abbrev pub showdown_time_of : Deps → Hand → Results → ℕ
showdown_time_of d h r =
    d.delays.showdown_time
    + (elim h.show_order [
      | none ↦ (revealed_count r - 1) * d.delays.showdown_per_hand
      | some order ↦ 0
    ])
    + (length r.pots - 1) * d.delays.pot_award

-- The turn of a player who does not act automatically.
abbrev pub await_turn : Deps → ℕ → Option TablePlayer → Table → Table
await_turn d seat p t =
    let secs = pos_part (
      if (elim p [ none ↦ false | some q ↦ q.connected ])
      then t.settings.turn_time
      else t.settings.disconnected_turn_time) in
    schedule (secs * 1000) (turn_over seat) (record t {
      to_act_seat = some seat;
      deadline = d.now + secs * 1000;
      time_bank_using = false;
      hand_phase = in_betting;
    })

abbrev pub no_turn : Table → Table
no_turn t = record t { to_act_seat = none; deadline = 0 }

-- A street is due: at once in a betting round, and in a run-out after the vote where there is one.
abbrev pub await_street : Deps → Hand → Table → Table
await_street d h t =
    if not h.runout
    then schedule d.delays.street advance_due (record (no_turn t) { hand_phase = in_betting })
    else if t.settings.run_it_twice
        && (not t.rit_decided && (can_run_it_twice h && ltb 1 (live_seats h t)))
    then schedule d.delays.run_twice_decision vote_over (record (no_turn t) {
      hand_phase = in_runout;
      rit_votes = some [];
      rit_ends_at = d.now + d.delays.run_twice_decision;
    })
    else schedule d.delays.runout advance_due (record (no_turn t) { hand_phase = in_runout })

abbrev pub await_reveal : Deps → Hand → Table → Table
await_reveal d h t = schedule d.delays.showdown_per_hand reveal_due (record (no_turn t) {
  hand_phase = in_showdown;
  phase_ends_at =
      d.now + (showdown_pending h * d.delays.showdown_per_hand + d.delays.showdown_time);
})

abbrev pub show_result : Deps → Hand → Results → Table → Table
show_result d h r t =
    let delay = pos_part t.settings.hand_delay_ms in
    if is_contested r
    then schedule (showdown_time_of d h r) (result_due delay)
        (record t { hand_phase = in_showdown; phase_ends_at = d.now + showdown_time_of d h r })
    else schedule delay clear_due
        (record t { hand_phase = in_result; phase_ends_at = d.now + delay })

-- The result phase; a hand without results is a nil dereference.
abbrev pub end_hand : Deps → Hand → Table → Outcome TableError Table
end_hand d h t = elim h.results [
  | none ↦ panic
  | some r ↦ finish_hand d r (no_turn t) >>= λ u. ok (show_result d h r u)
]

-- `ToAct`, with the seat 0 where nobody is to act.
abbrev pub turn_seat : Hand → ℕ
turn_seat h = elim (seat_to_act h) [ none ↦ 0 | some seat ↦ seat ]

abbrev pub armed_at : Table → ℕ → Option TablePlayer
armed_at t seat = elim (player_at t seat) [
  | none ↦ none
  | some p ↦ if is_armed p.pre_action then some p else none
]

-- `t.afterEngine`, where `again` is what happens after an automatic action.
unfoldable pub after_phase :
    (again : Table → Outcome TableError Table) → Deps → Hand → Table → Outcome TableError Table
unfolding apply_pre_action finish_hand
after_phase again d h t = elim h.phase [
  | betting ↦ elim (armed_at t (turn_seat h)) [
    | none ↦ ok (await_turn d (turn_seat h) (player_at t (turn_seat h)) t)
    | some p ↦ apply_pre_action h p t >>= again
  ]
  | deal_pending ↦ ok (await_street d h t)
  | showing ↦ ok (await_reveal d h t)
  | result ↦ end_hand d h t
]

-- `t.afterEngine` with so many automatic actions left; one more is a `panic`.
unfoldable pub after_actions : ℕ → Deps → Table → Outcome TableError Table
after_actions zero d t = elim t.hand [ none ↦ ok t | some h ↦ after_phase (λ u. panic) d h t ]
after_actions (suc n) d t = elim t.hand [
  | none ↦ ok t
  | some h ↦ after_phase (after_actions n d) d h t
]

-- `t.afterEngine`: in a betting round no player acts automatically twice.
unfoldable pub after_engine : Deps → Table → Outcome TableError Table
unfolding after_actions
after_engine d t = elim t.hand [ none ↦ ok t | some h ↦ after_actions (length h.players) d t ]

-- A call of the engine, and what the phase that it leads to requires.
unfoldable pub play : Deps → Outcome Types.Error Run → Table → Outcome TableError Table
unfolding after_engine
play d m t = engine m >>= λ r. after_engine d (take_run r t)
