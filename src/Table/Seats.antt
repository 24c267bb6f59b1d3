-- ===== src/Table/Seats.antt =====
-- table.go: finding and changing the players of a table, and the small helpers of the actor.
use showdown.Base.{
  ℕ, zero, suc, ◌+◌, Bool, true, false, not, ◌&&◌, List, [], ◌∷◌, ◌++◌, Option, none, some, ◌==◌,
  ltb, if◌then◌else◌, length, find, filter, take,
}
use showdown.Base.Int.{pos_part}
use showdown.Poker.Hand.State.{is_result}
use showdown.Table.Types.{
  TablePlayer, Table, TableState, ended, Status, active, Note, event, TableEvent, Alarm, TableError,
  table_ended, not_seated, saved_player,
}
use showdown.Base.Outcome.{Outcome, ok, refused}

abbrev pub max_seats : ℕ
max_seats = 10

abbrev pub is_active : Status → Bool
is_active active = true
is_active _ = false

abbrev pub is_ended : TableState → Bool
is_ended ended = true
is_ended _ = false

-- `t.players[id]`
abbrev pub by_id : List TablePlayer → ℕ → Option TablePlayer
by_id ps id = find (λ p. p.id == id) ps

-- A write through the pointer to a player.
abbrev pub change : (TablePlayer → TablePlayer) → ℕ → List TablePlayer → List TablePlayer
change f id [] = []
change f id (p ∷ ps) = if p.id == id then f p ∷ ps else p ∷ change f id ps

-- The id in a seat; no seat is out of the array.
abbrev pub id_at : List (Option ℕ) → ℕ → Option ℕ
id_at [] i = none
id_at (o ∷ os) zero = o
id_at (o ∷ os) (suc i) = id_at os i

-- `t.seats[seat]`, and the player it points to. The seats of a valid hand are below ten (`Inv`), and
-- the commands test the seats that they are given, so that the array is read in range.
abbrev pub player_at : Table → ℕ → Option TablePlayer
player_at t seat = elim (id_at t.seats seat) [ none ↦ none | some id ↦ by_id t.players id ]

-- The players in some seats, in the order of the seats.
abbrev pub players_in : List (Option ℕ) → List TablePlayer → List TablePlayer
players_in [] ps = []
players_in (none ∷ os) ps = players_in os ps
players_in (some id ∷ os) ps = elim (by_id ps id) [
  | none ↦ players_in os ps
  | some p ↦ p ∷ players_in os ps
]

-- `for _, p := range t.seats[:maxSeats] { if p != nil { ... } }`
abbrev pub seated : Table → List TablePlayer
seated t = players_in t.seats t.players

abbrev pub change_player : (TablePlayer → TablePlayer) → ℕ → Table → Table
change_player f id t = record t { players = change f id t.players }

abbrev pub seated_count : Table → ℕ
seated_count t = length t.players

abbrev pub seat_limit : Table → ℕ
seat_limit t = pos_part t.settings.max_players

-- `t.eligible()`
abbrev pub eligible : Table → List TablePlayer
eligible t =
    filter (λ p. is_active p.status && ltb 0 p.stack)
      (players_in (take (seat_limit t) t.seats) t.players)

abbrev pub is_done : Table → Bool
is_done t = elim t.hand [ none ↦ false | some h ↦ is_result h.phase ]

abbrev pub between_hands : Table → Bool
between_hands t = elim t.hand [ none ↦ true | some h ↦ is_result h.phase ]

abbrev pub hand_in_progress : Table → Bool
hand_in_progress t = elim t.hand [ none ↦ false | some h ↦ not (is_result h.phase) ]

abbrev pub has_hand : Table → Bool
has_hand t = elim t.hand [ none ↦ false | some h ↦ true ]

abbrev pub note : Note → Table → Table
note n t = record t { log = t.log ++ n ∷ [] }

-- `t.emit`
abbrev pub emit : TableEvent → Table → Table
emit e t = record t { seq = t.seq + 1; log = t.log ++ event (t.seq + 1) e ∷ [] }

-- `t.schedule`
abbrev pub schedule : ℕ → Alarm → Table → Table
schedule delay a t = record t { timer = some (delay, a) }

-- `t.cancelTimer`
abbrev pub cancel_timer : Table → Table
cancel_timer t = record t { timer = none }

abbrev pub persist_player : ℕ → Table → Table
persist_player id = note (saved_player id)

-- `t.seatedPlayer`
abbrev pub seated_player : Table → ℕ → Outcome TableError TablePlayer
seated_player t id =
    if is_ended t.state
    then refused table_ended
    else elim (by_id t.players id) [ none ↦ refused not_seated | some p ↦ ok p ]

abbrev pub players_with_chips : Table → ℕ
players_with_chips t = length (filter (λ p. ltb 0 p.stack) (seated t))
