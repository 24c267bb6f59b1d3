-- ===== src/Table/Finish.antt =====
-- hand.go: what happens between two hands: `finishHand`, `freeSeat`, `extendResultPhase`, `endTable`
-- and `voidHand`.
use showdown.Base.{
  ℕ, zero, suc, ◌+◌, min, max, Bool, true, false, not, ◌&&◌, ◌||◌, List, [], ◌∷◌, Option, none,
  some, ◌==◌, ltb, leb, if◌then◌else◌, filter, find, any, sum_by, insertion_sort, range_from,
}
use showdown.Base.Int.{sub_ℕ, ltb_ℤ, pos_part}
use showdown.Base.Outcome.{Outcome, ok, refused, panic, ◌>>=◌}
use showdown.Base.Text.{is_empty_text}
use showdown.Poker.Types.{Results, SeatResult, PotAward, PotWinner}
use showdown.Table.Types.{
  TablePlayer, Table, paused, ended, sitting_out, busted, unarmed, ChipAdjust, Deps, TableError,
  player_busted, player_sat_out, player_left, player_kicked, hand_voided, table_over, table_paused,
  saved_table, saved_hand_end, hand_results, round_results, sessions_deleted, in_result, no_phase,
  clear_due,
}
use showdown.Table.Seats.{
  max_seats, is_active, by_id, change_player, player_at, seated, seated_count, players_with_chips,
  emit, note, schedule, cancel_timer, persist_player, is_done, is_ended,
}
use showdown.Table.Clock.{is_running, set_state, apply_chips}

-- `for _, p := range t.seats[:maxSeats]`: the array is read as the loop goes.
abbrev pub each_seat : (TablePlayer → Table → Table) → List ℕ → Table → Table
each_seat f [] t = t
each_seat f (i ∷ is) t = each_seat f is (elim (player_at t i) [ none ↦ t | some p ↦ f p t ])

abbrev pub all_seats : List ℕ
all_seats = range_from 0 max_seats

abbrev pub without_seat : ℕ → List (Option ℕ) → List (Option ℕ)
without_seat i [] = []
without_seat zero (o ∷ os) = none ∷ os
without_seat (suc i) (o ∷ os) = o ∷ without_seat i os

-- `delete(t.players, id)`
abbrev pub delete_player : ℕ → List TablePlayer → List TablePlayer
delete_player id [] = []
delete_player id (p ∷ ps) = if p.id == id then ps else p ∷ delete_player id ps

-- `t.freeSeat`; nothing reads the player afterwards.
unfoldable pub free_seat : TablePlayer → Table → Table
free_seat p t = note (sessions_deleted p.id) (
    persist_player p.id (
      emit (if p.kicked then player_kicked p.seat p.name else player_left p.seat p.name) (record t {
        seats = without_seat p.seat t.seats;
        players = delete_player p.id t.players;
        sit_out_pending = filter (λ i. not (i == p.id)) t.sit_out_pending;
      })))

-- The first loop of `finishHand`: the final stack of a seat.
abbrev pub settle_seat : SeatResult → Table → Table
settle_seat r t = elim (player_at t r.seat) [
  | none ↦ t
  | some p ↦
      change_player
        (λ q. record q {
          stack = r.end_stack;
          hands_won = (if ltb 0 r.won then q.hands_won + 1 else q.hands_won);
          win_streak = (if ltb 0 r.won then q.win_streak + 1 else 0);
        })
        p.id t
]

abbrev pub settle_seats : List SeatResult → Table → Table
settle_seats [] t = t
settle_seats (r ∷ rs) t = settle_seats rs (settle_seat r t)

abbrev pub note_winner : PotWinner → Table → Table
note_winner w t = elim (player_at t w.seat) [
  | none ↦ t
  | some p ↦ change_player (λ q. record q { biggest_pot = max q.biggest_pot w.amount }) p.id t
]

abbrev pub note_winners : List PotWinner → Table → Table
note_winners [] t = t
note_winners (w ∷ ws) t = note_winners ws (note_winner w t)

-- The second loop: the biggest pot of each winner.
abbrev pub note_pots : List PotAward → Table → Table
note_pots [] t = t
note_pots (a ∷ rest) t = note_pots rest (note_winners a.winners t)

-- `t.contested`, for a hand with results.
abbrev pub is_contested : Results → Bool
is_contested r = any (λ (a : PotAward). not (is_empty_text a.description)) r.pots

-- The sums of the stacks before and after the hand.
abbrev pub start_sum : Results → ℕ
start_sum r = sum_by (λ (s : SeatResult). s.start_stack) r.seats

abbrev pub end_sum : Results → ℕ
end_sum r = sum_by (λ (s : SeatResult). s.end_stack) r.seats

-- The check of the chips: a table that lost or gained some is paused.
abbrev pub check_chips : Results → Table → Table
check_chips r t =
    if start_sum r == end_sum r
    then t
    else if is_running t.state
    then set_state paused table_paused t
    else t

abbrev pub result_of : Results → ℕ → Option SeatResult
result_of r seat = find (λ (s : SeatResult). s.seat == seat) r.seats

-- The player saw the showdown of a contested hand.
abbrev pub reached_showdown : Results → ℕ → Bool
reached_showdown r seat = elim (result_of r seat) [
  | none ↦ false
  | some s ↦ is_contested r && not s.folded
]

abbrev pub won_showdown : Results → ℕ → Bool
won_showdown r seat = elim (result_of r seat) [
  | none ↦ false
  | some s ↦ is_contested r && not s.folded && ltb 0 s.won
]

abbrev pub one_if : Bool → ℕ
one_if b = if b then 1 else 0

-- `min(TimeBankSeconds, p.TimeBank + TimeBankRefillSeconds)`, for a player who did not use it.
abbrev pub refilled : Table → TablePlayer → ℕ
refilled t p =
    if ltb 0 (pos_part t.settings.time_bank_seconds) && not p.used_time_bank
    then min (pos_part t.settings.time_bank_seconds)
        (p.time_bank + pos_part t.settings.time_bank_refill_seconds)
    else p.time_bank

-- The statistics and the time bank of a player after a hand.
abbrev pub closed : Results → Table → TablePlayer → TablePlayer
closed r t p = record p {
  pre_action = unarmed;
  vpip_hands = p.vpip_hands + one_if p.vpip_this_hand;
  vpip_this_hand = false;
  showdowns = p.showdowns + one_if (reached_showdown r p.seat);
  showdowns_won = p.showdowns_won + one_if (won_showdown r p.seat);
  time_bank = refilled t p;
  used_time_bank = false;
}

-- A player without chips is busted, and placed where that is final.
abbrev pub bust : TablePlayer → Table → Table
bust p t =
    if p.stack == 0 && is_active p.status
    then emit (player_busted p.seat p.name) (
        change_player
          (λ q. record q {
            status = busted;
            place = (if t.settings.allow_rebuy then q.place else players_with_chips t + 1);
          })
          p.id t)
    else t

-- A player who missed too many turns sits out.
abbrev pub sit_out_missed : ℕ → Table → Table
sit_out_missed id t = elim (by_id t.players id) [
  | none ↦ t
  | some p ↦
      if any (λ i. i == id) t.sit_out_pending
      then (let idle =
            change_player (λ q. record q { missed_turns = 0 }) id
              (record t { sit_out_pending = filter (λ i. not (i == id)) t.sit_out_pending }) in
          if is_active p.status
          then emit (player_sat_out p.seat p.name)
              (change_player (λ q. record q { status = sitting_out }) id idle)
          else idle)
      else t
]

-- The third loop, for one player; a player who leaves is not saved here.
abbrev pub close_player : Results → TablePlayer → Table → Table
close_player r p t =
    if p.in_hand
    then (let done = sit_out_missed p.id (bust p (change_player (closed r t) p.id t)) in
        if p.leaving then done else persist_player p.id done)
    else t

-- The fourth loop: the players who left during the hand.
unfoldable pub free_seats : List TablePlayer → Table → Table
unfolding free_seat
free_seats [] t = t
free_seats (p ∷ ps) t = free_seats ps (free_seat p t)

-- The fifth loop: the chips that wait; a change that is refused is logged only.
unfoldable pub apply_pending : Deps → List ChipAdjust → Table → Outcome TableError Table
unfolding apply_chips
apply_pending d [] t = ok t
apply_pending d (c ∷ cs) t = elim (by_id t.players c.player) [
  | none ↦ apply_pending d cs t
  | some p ↦ elim (apply_chips d p c.delta t) [
    | ok u ↦ apply_pending d cs u
    | refused e ↦ apply_pending d cs t
    | panic ↦ panic
  ]
]

-- The table ends where nobody can buy in again and one player has all the chips.
abbrev pub last_standing : Table → Table
last_standing t =
    if not t.settings.allow_rebuy && leb 2 (seated_count t) && leb (players_with_chips t) 1
    then record t { end_after_hand = true }
    else t

-- `t.finishHand` up to the players who leave.
abbrev pub close_hand : Results → Table → Table
close_hand r t =
    each_seat (close_player r) all_seats
      (note hand_results (check_chips r (note_pots r.pots (settle_seats r.seats t))))

-- `t.finishHand`
unfoldable pub finish_hand : Deps → Results → Table → Outcome TableError Table
unfolding free_seat apply_chips
finish_hand d r t =
    let closed_hand = close_hand r t in
    let freed =
      free_seats (filter (λ p. p.in_hand && p.leaving) (seated closed_hand)) closed_hand in
    apply_pending d freed.pending_chips (record freed { pending_chips = [] }) >>= λ u.
    ok (note saved_table (note (saved_hand_end false) (last_standing u)))

-- `t.extendResultPhase`
unfoldable pub extend_result_phase : Deps → Table → Table
extend_result_phase d t =
    let end = d.now + d.delays.result_extension in
    if not (is_done t) || is_ended t.state
    then t
    else note (saved_hand_end false) (
        if ltb t.phase_ends_at end
        then schedule d.delays.result_extension clear_due
            (record t { hand_phase = in_result; phase_ends_at = end })
        else record t { hand_phase = in_result })

-- Who stands better without a placement: the net result, then the stack.
abbrev pub ranks_before : TablePlayer → TablePlayer → Bool
ranks_before p q =
    let np = sub_ℕ p.stack p.buy_in_total in
    let nq = sub_ℕ q.stack q.buy_in_total in
    if ltb_ℤ nq np then true else if ltb_ℤ np nq then false else ltb q.stack p.stack

abbrev pub place_from : ℕ → List TablePlayer → Table → Table
place_from n [] t = t
place_from n (p ∷ ps) t = place_from (suc n) ps (change_player (λ q. record q { place = n }) p.id t)

-- `t.assignPlaces`
unfoldable pub assign_places : Table → Table
assign_places t =
    place_from 1 (insertion_sort ranks_before (filter (λ p. p.place == 0) (seated t))) t

-- `t.endTable`, without the standings.
unfoldable pub end_table : Deps → Table → Table
unfolding assign_places
end_table d t =
    let over = assign_places (
      emit table_over (record t {
        timer = none;
        hand = none;
        hand_phase = no_phase;
        state = ended;
        ended_at = d.now;
        blinds_up_at = 0;
      })) in
    note saved_table (
      note round_results (
        each_seat
          (λ p u. persist_player p.id (change_player (λ q. record q { in_hand = false }) p.id u))
          all_seats over))

-- The stacks go back to what they were before the hand.
abbrev pub give_back : List (ℕ × ℕ) → Table → Table
give_back [] t = t
give_back ((seat, stack) ∷ ss) t = give_back ss (elim (player_at t seat) [
  | none ↦ t
  | some p ↦ persist_player p.id (
      change_player (λ q. record q { stack = stack; in_hand = false; pre_action = unarmed }) p.id t)
])

-- `t.voidHand`, for a table with a hand.
unfoldable pub void_hand : Table → Table
unfolding free_seat
void_hand t =
    each_seat (λ p u. if p.leaving then free_seat p u else u) all_seats
      (record (note (saved_hand_end true)
        (emit hand_voided (give_back t.hand_start_stacks (cancel_timer t)))) {
          hand = none;
          hand_phase = no_phase;
          to_act_seat = none;
          deadline = 0;
        })
