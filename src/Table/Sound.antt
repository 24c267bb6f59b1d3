-- ===== src/Table/Sound.antt =====
-- What holds of a table between two commands, and the helpers that keep it.
use showdown.Base.{
  ℕ, zero, suc, ◌≤◌, ◌≡◌, refl, sym, ◌∙◌, ap, inl, inr, Bool, true, false, not, ◌&&◌, ◌||◌, ltb,
  length, List, [], ◌∷◌, ◌++◌, Option, none, some, if◌then◌else◌, if_both, Bool-cases, Option-cases,
  filter, All,
}
use showdown.Base.Int.{ℤ}
use mathlib.Core.Path.{subst}
use showdown.Base.Outcome.{Outcome, ok, refused, panic, Ensures}
use showdown.Poker.Hand.State.{Hand}
use showdown.Poker.Hand.Inv.{Inv}
use showdown.Poker.Hand.Turns.{TurnOk}
use showdown.Table.Types.{TablePlayer, Table, TableError, Deps}
use showdown.Table.Seats.{
  by_id, id_at, change, change_player, player_at, players_in, seated, has_hand, eligible,
  seat_limit, max_seats,
}
use showdown.Table.Clock.{
  schedule_start, apply_chips, changed_stack, arm_blinds_clock, raise_blinds, is_running,
  is_waiting,
}
use showdown.Table.Finish.{each_seat, free_seat, free_seats}
use showdown.Table.Seating.{places, Seating, places-change, by_id-seat_of}
use showdown.Table.Seating.Moves.{Fits, by_id-Fits, free-Seating, free-Fits}
pub mod Finishing
pub mod Playing
pub mod Dealing
pub mod Commands
pub mod Requests
pub mod Hosting
pub mod Timers
pub mod Reached

-- A valid hand in which, while players bet, somebody is to act.
abbrev pub SoundHand : Option Hand → Type 0
SoundHand none = Unit
SoundHand (some h) = Inv h × TurnOk h

-- What matters of a table for that: the seats, who sits where, the hand and the number of seats.
abbrev pub Core : Type 0
Core = List (Option ℕ) × List (ℕ × ℕ) × Option Hand × ℕ

abbrev pub core : Table → Core
core t = (t.seats, places t.players, t.hand, seat_limit t)

abbrev pub SoundCore : Core → Type 0
SoundCore (os, ls, o, n) = (Seating os ls × (n ≤ max_seats)) × SoundHand o

-- The seats and the players agree, the settings allow no more seats than there are, and the hand is
-- valid.
abbrev pub Sound : Table → Type 0
Sound t = SoundCore (core t)

pub Sound-same : (t u : Table) → core u ≡ core t → Sound t → Sound u
Sound-same t u e v = subst SoundCore (sym e) v

-- A change of one player that is no move.
abbrev pub Stays : (TablePlayer → TablePlayer) → Type 0
Stays f = ((p : TablePlayer) → (f p).id ≡ p.id) × ((p : TablePlayer) → (f p).seat ≡ p.seat)

pub core-change :
    (f : TablePlayer → TablePlayer) (id : ℕ) (t : Table)
    → Stays f
    → core (change_player f id t) ≡ core t
core-change f id t (k, m) =
    ap (λ ls. (t.seats, ls, t.hand, seat_limit t)) (places-change f id t.players k m)

pub core-each_seat :
    (f : TablePlayer → Table → Table)
    → ((p : TablePlayer) (t : Table) → core (f p t) ≡ core t)
    → (is : List ℕ) (t : Table) → core (each_seat f is t) ≡ core t
core-each_seat f keep [] t = refl
core-each_seat f keep (i ∷ is) t = elim (Option-cases (player_at t i)) [
  | inl e ↦ rw (e, each_seat) (core-each_seat f keep is t)
  | inr (p, e) ↦ rw (e, each_seat) (core-each_seat f keep is (f p t) ∙ keep p t)
]

pub core-schedule_start : (d : Deps) (t : Table) → core (schedule_start d t) ≡ core t
unfolding schedule_start
core-schedule_start d t = elim (Bool-cases (has_hand t || t.start_pending)) [
  | inl e ↦ rw (e, schedule_start) refl
  | inr e ↦
      elim (Bool-cases
        (not (is_running t.state) && not (is_waiting t.state && t.settings.auto_start))) [
          | inl f ↦ rw (e, schedule_start, f) refl
          | inr f ↦ elim (Bool-cases (ltb (length (eligible t)) 2)) [
            | inl g ↦ rw (e, schedule_start, f, g) refl
            | inr g ↦ rw (e, schedule_start, f, g) refl
          ]
        ]
]

pub apply_chips-core :
    (d : Deps) (p : TablePlayer) (delta : ℤ) (t : Table)
    → Ensures (λ u. core u ≡ core t) (apply_chips d p delta t)
unfolding apply_chips
apply_chips-core d p delta t = elim (Option-cases (changed_stack p.stack delta)) [
  | inl e ↦ rw (e, Ensures, apply_chips) tt
  | inr (n, e) ↦
      rw (e, Ensures, apply_chips)
        (core-schedule_start d _ ∙ core-change _ p.id t ((λ q. refl), (λ q. refl)))
]

-- A player fits in a seat of the table.
abbrev pub FitsIn : Table → TablePlayer → Type 0
FitsIn t p = Fits t.seats (places t.players) p.id p.seat

pub free_seat-Sound : (p : TablePlayer) (t : Table) → Sound t → FitsIn t p → Sound (free_seat p t)
unfolding free_seat
free_seat-Sound p t ((v, n), h) f = ((free-Seating t.seats t.players v p.id p.seat f, n), h)

pub free_seat-FitsIn :
    (p q : TablePlayer) (t : Table) → Sound t → FitsIn t p → FitsIn t q → FitsIn (free_seat p t) q
unfolding free_seat
free_seat-FitsIn p q t ((v, n), h) f g = free-Fits t.seats t.players v p.id p.seat f q.id q.seat g

free_each-FitsIn :
    (p : TablePlayer) (t : Table) (ps : List TablePlayer)
    → Sound t
    → FitsIn t p
    → All (FitsIn t) ps
    → All (FitsIn (free_seat p t)) ps
free_each-FitsIn p t [] v f h = tt
free_each-FitsIn p t (q ∷ qs) v f h =
    (free_seat-FitsIn p q t v f h.0, free_each-FitsIn p t qs v f h.1)

pub free_seats-Sound :
    (ps : List TablePlayer) (t : Table) → Sound t → All (FitsIn t) ps → Sound (free_seats ps t)
unfolding free_seats
free_seats-Sound [] t v h = v
free_seats-Sound (p ∷ ps) t v h =
    free_seats-Sound ps (free_seat p t) (free_seat-Sound p t v h.0)
      (free_each-FitsIn p t ps v h.0 h.1)

pub player_at-FitsIn :
    (t : Table) (id : ℕ) (p : TablePlayer) → Sound t → by_id t.players id ≡ some p → FitsIn t p
player_at-FitsIn t id p v e = by_id-Fits t.seats t.players id p v.0.0 e

-- Everyone in a seat fits there.
seated-FitsIn :
    (t : Table) (os : List (Option ℕ)) → Sound t → All (FitsIn t) (players_in os t.players)
seated-FitsIn t [] v = tt
seated-FitsIn t (none ∷ os) v = seated-FitsIn t os v
seated-FitsIn t (some id ∷ os) v = elim (Option-cases (by_id t.players id)) [
  | inl e ↦ rw (e, All, players_in) (seated-FitsIn t os v)
  | inr (p, e) ↦ rw (e, All, players_in) (player_at-FitsIn t id p v e, seated-FitsIn t os v)
]

pub All-filter :
    {A : Type 0} (P : A → Type 0) (b : A → Bool) (xs : List A) → All P xs → All P (filter b xs)
All-filter P b [] h = tt
All-filter P b (x ∷ xs) h =
    if_both (All P) (b x) (λ _. (h.0, All-filter P b xs h.1)) (λ _. All-filter P b xs h.1)

pub leavers-FitsIn :
    (b : TablePlayer → Bool) (t : Table) → Sound t → All (FitsIn t) (filter b (seated t))
leavers-FitsIn b t v = All-filter (FitsIn t) b (seated t) (seated-FitsIn t t.seats v)

pub change-Sound :
    (f : TablePlayer → TablePlayer) (id : ℕ) (t : Table)
    → Stays f
    → Sound t
    → Sound (change_player f id t)
change-Sound f id t s v = Sound-same t (change_player f id t) (core-change f id t s) v
