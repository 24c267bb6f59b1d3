-- ===== src/Table/Sound/Commands.antt =====
-- table.go: the commands of players and of the host, and the timer, keep a table sound.
use showdown.Base.{
  ℕ, ◌-◌, ◌/◌, ◌≡◌, refl, inl, inr, Bool, true, false, not, ◌&&◌, ◌||◌, Option, none, some,
  if◌then◌else◌, if_both, Bool-cases, Option-cases,
}
use mathlib.Core.Path.{subst}
use showdown.Base.Outcome.{Outcome, ok, ◌>>=◌, Ensures, Ensures-bind, Ensures-of_Returns}
use showdown.Poker.Types.{Action}
use showdown.Poker.Hand.State.{Hand, total_chips}
use showdown.Poker.Hand.Turn.{apply}
use showdown.Poker.Hand.Calls.{forfeit}
use showdown.Poker.Hand.Inv.{Inv, Good}
use showdown.Poker.Hand.Acts.{apply-Good}
use showdown.Poker.Hand.Leaving.{forfeit-Good}
use showdown.Poker.Hand.Turns.{TurnOk}
use showdown.Poker.Hand.Moments.{apply-Leads, forfeit-Leads}
use showdown.Table.Types.{
  TablePlayer, Table, TableError, Deps, unarmed, sitting_out, invalid_state, player_sat_out,
}
use showdown.Table.Seats.{
  by_id, change_player, seated_player, is_ended, hand_in_progress, is_active, persist_player, emit,
}
use showdown.Table.Players.{guard, action, ready_to_act}
use showdown.Table.Requests.{sit_out, can_still_fold, free_if_there, remove_player}
use showdown.Table.Engine.{play}
use showdown.Table.Sound.{Sound, SoundHand, change-Sound, free_seat-Sound, player_at-FitsIn}
use showdown.Table.Sound.Playing.{play-Sound}

-- A guard in front of a command that keeps a table sound.
pub guard-Sound :
    (b : Bool) (e : TableError) (m : Outcome TableError Table)
    → Ensures Sound m
    → Ensures Sound (guard b e m)
guard-Sound true e m h = tt
guard-Sound false e m h = h

-- A command of a player who is seated.
pub seated_player-Ensures :
    (t : Table) (id : ℕ) (f : TablePlayer → Outcome TableError Table)
    → ((p : TablePlayer) → by_id t.players id ≡ some p → Ensures Sound (f p))
    → Ensures Sound (seated_player t id >>= f)
seated_player-Ensures t id f h = elim (Bool-cases (is_ended t.state)) [
  | inl e ↦ rw (e, seated_player) tt
  | inr e ↦ elim (Option-cases (by_id t.players id)) [
    | inl g ↦ rw (e, seated_player, g) tt
    | inr (p, g) ↦ rw (e, seated_player, g) (h p g)
  ]
]

-- The hand of a sound table.
pub hand_of : (t : Table) (h : Hand) → Sound t → t.hand ≡ some h → Inv h × TurnOk h
hand_of t h v e = subst SoundHand e v.1

pub action-Sound :
    (d : Deps) (t : Table) (id : ℕ) (a : Action) → Sound t → Ensures Sound (action d t id a)
unfolding action
action-Sound d t id a v = seated_player-Ensures t id _ (λ p at. elim (Option-cases t.hand) [
  | inl e ↦ rw e tt
  | inr (h, e) ↦
      let (inv, turn) = hand_of t h v e in
      rw e (
        guard-Sound _ _ _ (
          play-Sound d (total_chips h) (apply h p.seat a) (ready_to_act d p t) (ready p)
            (apply-Good h p.seat a inv) (apply-Leads h p.seat a)))
])
  where
    ready : (p : TablePlayer) → Sound (ready_to_act d p t)
    ready p =
        if_both Sound t.time_bank_using
          (λ _.
            change-Sound
              (λ q. record q {
                missed_turns = 0;
                pre_action = unarmed;
                time_bank = (t.deadline - d.now) / 1000;
              })
              p.id (record t { time_bank_using = false }) ((λ q. refl), (λ q. refl)) v)
          (λ _.
            change-Sound (λ q. record q { missed_turns = 0; pre_action = unarmed }) p.id t
              ((λ q. refl), (λ q. refl)) v)

pub sit_out-Sound : (d : Deps) (t : Table) (id : ℕ) → Sound t → Ensures Sound (sit_out d t id)
unfolding sit_out
sit_out-Sound d t id v =
    seated_player-Ensures t id _
      (λ p at. guard-Sound (not (is_active p.status)) invalid_state _ (by_hand p t.hand refl))
  where
    idle : TablePlayer → Table
    idle p = persist_player p.id (
        emit (player_sat_out p.seat p.name)
          (change_player (λ q. record q { status = sitting_out }) p.id t))

    calm : (p : TablePlayer) → Sound (idle p)
    calm p =
        change-Sound (λ q. record q { status = sitting_out }) p.id t ((λ q. refl), (λ q. refl)) v

    by_hand :
        (p : TablePlayer) (o : Option Hand)
        → t.hand ≡ o
        → Ensures Sound (elim o [
          | none ↦ ok (idle p)
          | some h ↦
              let folded = play d (forfeit h p.seat) (idle p) in
              if hand_in_progress t && (p.in_hand && can_still_fold h p.seat)
              then folded
              else ok (idle p)
        ])
    by_hand p none e = calm p
    by_hand p (some h) e =
        let (inv, turn) = hand_of t h v e in
        if_both (Ensures Sound) (hand_in_progress t && (p.in_hand && can_still_fold h p.seat))
          (λ _.
            play-Sound d (total_chips h) (forfeit h p.seat) (idle p) (calm p)
              (Ensures-of_Returns (Good (total_chips h)) (forfeit h p.seat)
                (forfeit-Good h p.seat inv))
              (forfeit-Leads h p.seat turn))
          (λ _. calm p)

free_if_there-Sound : (id : ℕ) (t : Table) → Sound t → Sound (free_if_there id t)
unfolding free_if_there
free_if_there-Sound id t v = elim (Option-cases (by_id t.players id)) [
  | inl e ↦ rw (e, free_if_there) v
  | inr (p, e) ↦ rw (e, free_if_there) (free_seat-Sound p t v (player_at-FitsIn t id p v e))
]

pub remove_player-Sound :
    (d : Deps) (kicked : Bool) (p : TablePlayer) (t : Table)
    → Sound t
    → Ensures Sound (remove_player d kicked p t)
unfolding remove_player
remove_player-Sound d kicked p t v = elim (Option-cases t.hand) [
  | inl e ↦ rw (e, Ensures, remove_player) (free_if_there-Sound p.id going calm)
  | inr (h, e) ↦
      let (inv, turn) = hand_of t h v e in
      rw (e, Ensures, remove_player)
        (if_both (Ensures Sound) (hand_in_progress t && p.in_hand)
          (λ _.
            Ensures-bind Sound Sound (play d (forfeit h p.seat) going) _
              (play-Sound d (total_chips h) (forfeit h p.seat) going calm
                (Ensures-of_Returns (Good (total_chips h)) (forfeit h p.seat)
                  (forfeit-Good h p.seat inv))
                (forfeit-Leads h p.seat turn))
              (λ u w.
                if_both Sound (hand_in_progress u) (λ _. w) (λ _. free_if_there-Sound p.id u w)))
          (λ _. free_if_there-Sound p.id going calm))
]
  where
    going : Table
    going = change_player (λ q. record q { leaving = true; kicked = q.kicked || kicked }) p.id t

    calm : Sound going
    calm =
        change-Sound (λ q. record q { leaving = true; kicked = q.kicked || kicked }) p.id t
          ((λ q. refl), (λ q. refl)) v
