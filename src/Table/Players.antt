-- ===== src/Table/Players.antt =====
-- table.go: the commands `Join`, `Action` and `ChangeSeat`. A command that is refused changes nothing.
-- Connections and the password, which the server checks, are not modelled.
use showdown.Base.{
  ℕ, suc, ◌-◌, ◌/◌, Bool, true, false, not, ◌&&◌, ◌||◌, List, [], ◌∷◌, ◌++◌, Option, none, some,
  ◌==◌, ltb, leb, if◌then◌else◌, any,
}
use showdown.Base.Int.{pos_part}
use showdown.Base.Outcome.{Outcome, ok, refused, ◌>>=◌}
use showdown.Base.Text.{Text, eq_text}
use showdown.Poker.Types.{Action, not_your_turn}
use showdown.Poker.Hand.Turn.{apply}
use showdown.Table.Settings.{join_before_start, join_closed}
use showdown.Table.Types.{
  TablePlayer, Table, active, unset, unarmed, TableError, Deps, table_ended, joins_closed,
  table_full, name_taken, invalid_state, locked_by_tournament, seat_taken, from_engine,
  player_joined,
}
use showdown.Table.Seats.{
  change_player, seated_player, seat_limit, is_ended, hand_in_progress, emit, persist_player,
}
use showdown.Table.Clock.{is_waiting, tournament_locked, schedule_start}
use showdown.Table.Engine.{play}
use showdown.Table.Deal.{with_seat, is_free, apply_seat_change}

-- `if bad { return err }`
abbrev pub guard : Bool → TableError → Outcome TableError Table → Outcome TableError Table
guard true e m = refused e
guard false e m = m

abbrev pub seat_change_cooldown_hands : ℕ
seat_change_cooldown_hands = 3

abbrev pub avatar_count : ℕ
avatar_count = 20

-- The lowest free seat below a limit, from a seat on.
abbrev pub first_free : List (Option ℕ) → ℕ → ℕ → Option ℕ
first_free [] i limit = none
first_free (none ∷ os) i limit = if ltb i limit then some i else none
first_free (some id ∷ os) i limit = first_free os (suc i) limit

-- The seat of a player who joins: the one asked for, or the lowest free one.
unfoldable pub join_seat : Table → Option ℕ → Outcome TableError ℕ
join_seat t (some seat) =
    if leb (seat_limit t) seat || not (is_free t.seats seat) then refused seat_taken else ok seat
join_seat t none = elim (first_free t.seats 0 (seat_limit t)) [
  | none ↦ refused table_full
  | some seat ↦ ok seat
]

-- What a player brings: the id that was drawn, the name and its key, the avatar and the hat after
-- their checks, the account and whether it is a bot.
pub record Newcomer : Type 0 where
  pub id : ℕ
  pub name : Text
  pub name_key : Text
  pub avatar : ℕ
  pub hat : Text
  pub account_id : Text
  pub account_handle : Text
  pub bot : Bool

unfoldable pub new_player : Deps → Table → ℕ → Newcomer → TablePlayer
new_player d t seat n = record {
  id = n.id;
  name = n.name;
  seat = seat;
  stack = pos_part t.settings.start_money;
  status = active;
  connected = false;
  is_muted = false;
  last_say = 0;
  missed_turns = 0;
  buy_in_total = pos_part t.settings.start_money;
  hands_played = 0;
  hands_won = 0;
  biggest_pot = 0;
  joined_at = d.now;
  left_at = 0;
  avatar = n.avatar;
  hat = n.hat;
  win_streak = 0;
  vpip_hands = 0;
  showdowns = 0;
  showdowns_won = 0;
  time_bank = pos_part t.settings.time_bank_seconds;
  used_time_bank = false;
  place = 0;
  camera = false;
  account_id = n.account_id;
  account_handle = n.account_handle;
  bot = n.bot;
  in_hand = false;
  vpip_this_hand = false;
  straddle_next = false;
  leaving = false;
  kicked = false;
  pre_action = unarmed;
  pending_seat = none;
  owes_dead_blind = false;
  last_seat_change_hand = 0;
  voice = unset;
}

-- The player in the seat.
unfoldable pub seat_newcomer : Deps → Table → Newcomer → ℕ → Table
unfolding new_player
seat_newcomer d t n seat = persist_player n.id (
    emit (player_joined seat n.name) (record t {
      seats = with_seat seat n.id t.seats;
      players = t.players ++ new_player d t seat n ∷ [];
      names = n.name_key ∷ t.names;
    }))

abbrev pub joins_are_closed : Table → Bool
joins_are_closed t =
    eq_text t.settings.join_policy join_closed
    || (eq_text t.settings.join_policy join_before_start && not (is_waiting t.state))

-- `t.Join`, for a name that `NormalizeName` accepts.
unfoldable pub join : Deps → Table → Newcomer → Option ℕ → Outcome TableError Table
unfolding join_seat seat_newcomer schedule_start
join d t n wanted = guard (is_ended t.state) table_ended (
    guard (joins_are_closed t) joins_closed (
      guard (any (eq_text n.name_key) t.names) name_taken
        (join_seat t wanted >>= λ seat. ok (schedule_start d (seat_newcomer d t n seat)))))

-- `t.Action`: what is left of the time bank goes back to the player.
abbrev pub ready_to_act : Deps → TablePlayer → Table → Table
ready_to_act d p t =
    if t.time_bank_using
    then change_player
        (λ q. record q {
          missed_turns = 0;
          pre_action = unarmed;
          time_bank = (t.deadline - d.now) / 1000;
        })
        p.id (record t { time_bank_using = false })
    else change_player (λ q. record q { missed_turns = 0; pre_action = unarmed }) p.id t

unfoldable pub action : Deps → Table → ℕ → Action → Outcome TableError Table
action d t id a = seated_player t id >>= λ p. elim t.hand [
  | none ↦ refused (from_engine not_your_turn)
  | some h ↦
      guard (not (hand_in_progress t && p.in_hand)) (from_engine not_your_turn)
        (play d (apply h p.seat a) (ready_to_act d p t))
]

-- `canChangeSeat`: the cooldown.
unfoldable pub can_change_seat : Table → TablePlayer → Bool
unfolding tournament_locked
can_change_seat t p =
    not (tournament_locked t)
    && (elim p.pending_seat [ none ↦ true | some s ↦ false ])
    && (p.last_seat_change_hand == 0
        || leb seat_change_cooldown_hands (t.hand_number - p.last_seat_change_hand))

-- `t.seatReserved`
abbrev pub waits_for : ℕ → TablePlayer → Bool
waits_for seat p = elim p.pending_seat [ none ↦ false | some s ↦ s == seat ]

abbrev pub seat_reserved : Table → ℕ → Bool
seat_reserved t seat = any (waits_for seat) t.players

-- The wish is noted.
abbrev pub wish_seat : ℕ → ℕ → TablePlayer → TablePlayer
wish_seat seat number p = record p {
  pending_seat = some seat;
  owes_dead_blind = true;
  last_seat_change_hand = number;
}

-- `t.ChangeSeat`
unfoldable pub change_seat : Table → ℕ → ℕ → Outcome TableError Table
unfolding tournament_locked can_change_seat apply_seat_change
change_seat t id seat = seated_player t id >>= λ p.
    let wished = change_player (wish_seat seat t.hand_number) p.id t in
    guard (leb (seat_limit t) seat || seat == p.seat) seat_taken (
      guard (tournament_locked t) locked_by_tournament (
        guard (not (can_change_seat t p)) invalid_state (
          guard (not (is_free t.seats seat) || seat_reserved t seat) seat_taken (
            ok (
              if hand_in_progress t && p.in_hand
              then wished
              else apply_seat_change (wish_seat seat t.hand_number p) wished)))))
