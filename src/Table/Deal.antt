-- ===== src/Table/Deal.antt =====
-- hand.go: dealing a hand: `maybeStartHand`, `startHand`, `clockwiseFrom`; and table.go: moving to
-- another seat.
use showdown.Base.{
  ℕ, zero, suc, ◌+◌, ◌-◌, ◌*◌, ◌%◌, Bool, true, false, not, ◌&&◌, ◌||◌, List, [], ◌∷◌, Option, none,
  some, ◌==◌, ltb, leb, if◌then◌else◌, length, filter, any, map, get_elem?, sort_by,
}
use showdown.Base.Int.{pos_part, ltb_ℤ, pos}
use showdown.Base.Outcome.{Outcome, ok, refused, panic, ◌>>=◌}
use showdown.Base.Text.{eq_text}
use showdown.Poker.Types.{
  Error, invalid_blinds, HandConfig, Seat, RevealPolicy, reveal_all, reveal_winners_only,
  reveal_in_order,
}
use showdown.Poker.Hand.State.{Run}
use showdown.Poker.Hand.Deal.{new_hand}
use showdown.Table.Settings.{Settings, show_winners_only, show_in_order, poker_variant}
use showdown.Table.Types.{
  TablePlayer, Table, running, paused, Deps, TableError, table_started, table_paused, player_moved,
  saved_table, saved_hand_start, audited,
}
use showdown.Table.Seats.{
  max_seats, eligible, has_hand, change_player, id_at, emit, note, persist_player, seat_limit,
}
use showdown.Table.Clock.{is_waiting, is_running, set_state, arm_blinds_clock, raise_blinds}
use showdown.Table.Finish.{each_seat, all_seats, without_seat}
use showdown.Table.Engine.{take_run, after_engine}

-- `seats[i] = p`
abbrev pub with_seat : ℕ → ℕ → List (Option ℕ) → List (Option ℕ)
with_seat i id [] = []
with_seat zero id (o ∷ os) = some id ∷ os
with_seat (suc i) id (o ∷ os) = o ∷ with_seat i id os

abbrev pub is_free : List (Option ℕ) → ℕ → Bool
is_free os i = elim (id_at os i) [ none ↦ true | some id ↦ false ]

-- The move itself.
abbrev pub move_to : ℕ → TablePlayer → Table → Table
move_to to p t = note audited (
    persist_player p.id (
      emit (player_moved to p.seat p.name) (
        change_player (λ q. record q { seat = to }) p.id
          (record t { seats = with_seat to p.id (without_seat p.seat t.seats) }))))

-- `t.applySeatChange`: the wish is over whether the seat is still free or not.
unfoldable pub apply_seat_change : TablePlayer → Table → Table
apply_seat_change p t =
    let asked = change_player (λ q. record q { pending_seat = none }) p.id t in
    elim p.pending_seat [
      | none ↦ asked
      | some to ↦
          if leb (seat_limit t) to || not (is_free t.seats to) then asked else move_to to p asked
    ]

-- `t.applyPendingSeatChanges`
unfoldable pub apply_pending_seat_changes : Table → Table
unfolding apply_seat_change
apply_pending_seat_changes =
    each_seat (λ p t. elim p.pending_seat [ none ↦ t | some to ↦ apply_seat_change p t ]) all_seats

-- The first seat clockwise that an eligible player has, with so many seats left to look at.
abbrev pub seat_after : List TablePlayer → ℕ → ℕ → Option ℕ
seat_after es seat zero = none
seat_after es seat (suc n) =
    let rest = seat_after es ((seat + 1) % max_seats) n in
    if any (λ (p : TablePlayer). p.seat == seat) es then some seat else rest

-- The button of the next hand: a random player, or the next one clockwise. Where the source is left
-- with -1 this is 10, which is no seat either.
unfoldable pub next_button : Deps → List TablePlayer → Option ℕ → Outcome TableError ℕ
next_button d es none = elim (get_elem? es (d.rand_intn (length es))) [
  | none ↦ panic
  | some p ↦ ok p.seat
]
next_button d es (some b) = elim (seat_after es ((b + 1) % max_seats) max_seats) [
  | none ↦ ok max_seats
  | some seat ↦ ok seat
]

-- `clockwiseFrom`
abbrev pub clockwise_key : ℕ → TablePlayer → ℕ
clockwise_key button p = if ltb button p.seat then p.seat - button else p.seat + max_seats - button

unfoldable pub clockwise_from : ℕ → List TablePlayer → List TablePlayer
clockwise_from button es = sort_by (clockwise_key button) es

abbrev pub reveal_policy : Settings → RevealPolicy
reveal_policy s =
    if eq_text s.showdown_reveal show_winners_only
    then reveal_winners_only
    else if eq_text s.showdown_reveal show_in_order
    then reveal_in_order
    else reveal_all

-- The seat that posts a straddle: the third from the button, where it is armed and can pay.
unfoldable pub straddler : Settings → ℕ → List TablePlayer → Option ℕ
unfolding clockwise_from
straddler s button es =
    if s.allow_straddle && leb 3 (length es)
    then elim (get_elem? (clockwise_from button es) 2) [
      | none ↦ none
      | some p ↦
          if p.straddle_next && ltb (2 * pos_part s.big_blind) p.stack then some p.seat else none
    ]
    else none

abbrev pub straddle_amount_of : Settings → Option ℕ → ℕ
straddle_amount_of s none = 0
straddle_amount_of s (some seat) = 2 * pos_part s.big_blind

unfoldable pub config_of : Settings → ℕ → List TablePlayer → HandConfig
unfolding straddler
config_of s button es = record {
  small_blind = pos_part s.small_blind;
  big_blind = pos_part s.big_blind;
  ante = pos_part s.ante;
  button_seat = button;
  reveal = reveal_policy s;
  dead_blinds =
      map (λ (p : TablePlayer). (p.seat, pos_part s.big_blind))
        (filter (λ (p : TablePlayer). p.owes_dead_blind) es);
  straddle_seat = straddler s button es;
  straddle_amount = straddle_amount_of s (straddler s button es);
  variant = poker_variant s;
}

abbrev pub seats_of : List TablePlayer → List Seat
seats_of es = map (λ (p : TablePlayer). record { seat = p.seat; stack = p.stack }) es

abbrev pub each_player : (TablePlayer → TablePlayer) → List TablePlayer → Table → Table
each_player f [] t = t
each_player f (p ∷ ps) t = each_player f ps (change_player f p.id t)

-- What a player starts a hand with, before the engine is asked.
abbrev pub unburden : TablePlayer → TablePlayer
unburden p = record p { owes_dead_blind = false; vpip_this_hand = false; used_time_bank = false }

abbrev pub deal_in : TablePlayer → TablePlayer
deal_in p = record p { in_hand = true; hands_played = p.hands_played + 1 }

abbrev pub no_vote : Table → Table
no_vote t = record t {
  rit_votes = none;
  rit_ends_at = 0;
  rit_decided = false;
  time_bank_using = false;
}

-- The table once the engine has dealt.
abbrev pub dealt : Deps → ℕ → List TablePlayer → Run → Table → Table
dealt d button es r t = take_run r (
    note saved_table (
      note saved_hand_start (
        each_player deal_in es (record t {
          hand = some r.0;
          rabbit_cards = none;
          hand_number = t.hand_number + 1;
          button_seat = some button;
          hand_started_at = d.now;
          hand_start_stacks = map (λ (p : TablePlayer). (p.seat, p.stack)) es;
          seq = 0;
        }))))

-- `NewHand` for the settings: it refuses an ante below 0, which the numbers of its model leave out.
unfoldable pub engine_hand : Deps → ℕ → List TablePlayer → Settings → Outcome Error Run
unfolding new_hand config_of
engine_hand d button es s =
    let started = new_hand (config_of s button es) (seats_of es) (some d.shuffle) in
    if ltb_ℤ s.ante (pos 0) then refused invalid_blinds else started

-- The engine deals, or the table is paused.
unfoldable pub deal_from : Deps → ℕ → List TablePlayer → Table → Outcome TableError Table
unfolding engine_hand after_engine
deal_from d button es t = elim (engine_hand d button es t.settings) [
  | ok r ↦ after_engine d (dealt d button es r (no_vote (each_player unburden es t)))
  | refused e ↦ ok (set_state paused table_paused (no_vote (each_player unburden es t)))
  | panic ↦ panic
]

-- The blind schedule is looked at when a hand is dealt.
unfoldable pub raise_due : Deps → Table → Table
unfolding raise_blinds
raise_due d t = if ltb 0 t.blinds_up_at && leb t.blinds_up_at d.now then raise_blinds d t else t

-- `t.startHand`
unfoldable pub start_hand : Deps → List TablePlayer → Table → Outcome TableError Table
unfolding next_button
start_hand d es t =
    next_button d es t.button_seat >>= λ button. deal_from d button es (raise_due d t)

-- `t.maybeStartHand`
unfoldable pub maybe_start_hand : Deps → Table → Outcome TableError Table
unfolding start_hand arm_blinds_clock
maybe_start_hand d t =
    let started =
      if is_waiting t.state && t.settings.auto_start
      then arm_blinds_clock d (set_state running table_started t)
      else t in
    let dealt_hand = start_hand d (eligible t) started in
    if has_hand t || ltb (length (eligible t)) 2
    then ok t
    else if is_running started.state
    then dealt_hand
    else ok started
