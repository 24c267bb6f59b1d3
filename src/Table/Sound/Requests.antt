-- ===== src/Table/Sound/Requests.antt =====
-- table.go: joining, moving, and what players may ask of a running hand, keep a table sound.
use showdown.Base.{
  ℕ, suc, ◌+◌, ◌<◌, ◌≡◌, refl, sym, inl, inr, true, not, ◌&&◌, ◌||◌, List, [], ◌∷◌, Option, none,
  some, arith, ◌==◌, ltb, leb, if◌then◌else◌, if_both, any, or_false, Bool-cases, Option-cases,
}
use mathlib.Core.Path.{subst}
use showdown.Base.Text.{eq_text}
use showdown.Base.Outcome.{ok, ◌>>=◌, Ensures, Ensures-bind}
use showdown.Poker.Hand.State.{Hand, is_betting}
use showdown.Poker.Hand.Views.{seat_to_act}
use showdown.Poker.Hand.Nearer.{owing}
use showdown.Table.Types.{
  TablePlayer, Table, Deps, PreAction, PreActionKind, pre_none, pre_check_fold, pre_call_any, other,
  unarmed, check_fold, call_any, table_ended, joins_closed, name_taken, seat_taken, invalid_state,
  locked_by_tournament, from_engine,
}
use showdown.Poker.Types.{wrong_phase}
use showdown.Table.Seats.{by_id, id_at, change_player, seat_limit, is_ended, hand_in_progress}
use showdown.Table.Clock.{tournament_locked, schedule_start}
use showdown.Table.Engine.{after_engine, apply_pre_action, turn_seat, is_armed}
use showdown.Table.Deal.{is_free, apply_seat_change}
use showdown.Table.Play.{is_turn_of}
use showdown.Table.Players.{
  first_free, join_seat, Newcomer, new_player, seat_newcomer, joins_are_closed, join,
  can_change_seat, seat_reserved, wish_seat, change_seat,
}
use showdown.Table.Requests.{is_sit_out_fold, arm, set_pre_action}
use showdown.Table.Seating.{places, seat_of, by_id-seat_of, seat_of-by_id, places-change}
use showdown.Table.Seating.Moves.{join-Seating}
use showdown.Table.Sound.{Sound, Sound-same, change-Sound, core-schedule_start}
use showdown.Table.Sound.Playing.{pre_action-Sound, after_engine-Sound}
use showdown.Table.Sound.Dealing.{free_none, apply_seat_change-Sound}
use showdown.Table.Sound.Commands.{guard-Sound, seated_player-Ensures, hand_of}

-- The seat that a new player gets is free and one of the table's.
abbrev FreeSeat : Table → ℕ → Type 0
FreeSeat t seat = (id_at t.seats seat ≡ none) × (seat < seat_limit t)

first_free-free :
    (os : List (Option ℕ)) (i limit seat : ℕ)
    → first_free os i limit ≡ some seat
    → (k : ℕ) × (seat ≡ i + k) × (id_at os k ≡ none) × (seat < limit)
first_free-free [] i limit seat e = cc
first_free-free (none ∷ os) i limit seat e = elim (Bool-cases (ltb i limit)) [
  | inl f ↦
      let here : i ≡ seat = cc (rw f at e) in
      (0, omega (arith, here), refl, ground (arith, f, here))
  | inr f ↦ cc (rw f at e)
]
first_free-free (some id ∷ os) i limit seat e =
    let (k, at, free, lt) = first_free-free os (suc i) limit seat e in
    (suc k, omega (arith, at), free, lt)

pub join_seat-free : (t : Table) (wanted : Option ℕ) → Ensures (FreeSeat t) (join_seat t wanted)
unfolding join_seat
join_seat-free t (some seat) =
    if_both (Ensures (FreeSeat t)) (leb (seat_limit t) seat || not (is_free t.seats seat)) (λ _. tt)
      (λ e.
        let (below, taken) = or_false (leb (seat_limit t) seat) (not (is_free t.seats seat)) e in
        (free_none t.seats seat taken, ground (arith, below)))
join_seat-free t none = elim (Option-cases (first_free t.seats 0 (seat_limit t))) [
  | inl e ↦ rw (e, Ensures, join_seat) tt
  | inr (seat, e) ↦
      let (k, at, free, lt) = first_free-free t.seats 0 (seat_limit t) seat e in
      let same : seat ≡ k = omega (arith, at) in
      rw (e, Ensures, join_seat) (subst (λ s. id_at t.seats s ≡ none) (sym same) free, lt)
]

-- The id that is drawn for a new player is not taken.
abbrev pub Fresh : Table → ℕ → Type 0
Fresh t id = seat_of (places t.players) id ≡ none

pub join-Sound :
    (d : Deps) (t : Table) (n : Newcomer) (wanted : Option ℕ)
    → Fresh t n.id
    → Sound t
    → Ensures Sound (join d t n wanted)
unfolding join seat_newcomer new_player
join-Sound d t n wanted fresh v = guard-Sound (is_ended t.state) table_ended _ (
    guard-Sound (joins_are_closed t) joins_closed _ (
      guard-Sound (any (eq_text n.name_key) t.names) name_taken _ (
        Ensures-bind (FreeSeat t) Sound (join_seat t wanted) _ (join_seat-free t wanted) (λ seat at.
          Sound-same (seat_newcomer d t n seat) (schedule_start d (seat_newcomer d t n seat))
            (core-schedule_start d (seat_newcomer d t n seat))
            (
              (
                join-Seating t.seats t.players (new_player d t seat n) v.0.0 fresh at.0
                    (omega (arith, at.1, v.0.1)),
                v.0.1,
              ),
              v.1,
            )))))

pub change_seat-Sound : (t : Table) (id seat : ℕ) → Sound t → Ensures Sound (change_seat t id seat)
unfolding change_seat
change_seat-Sound t id seat v = seated_player-Ensures t id _ (λ p at.
    guard-Sound (leb (seat_limit t) seat || seat == p.seat) seat_taken _ (
      guard-Sound (tournament_locked t) locked_by_tournament _ (
        guard-Sound (not (can_change_seat t p)) invalid_state _ (
          guard-Sound (not (is_free t.seats seat) || seat_reserved t seat) seat_taken _
            (if_both Sound (hand_in_progress t && p.in_hand) (λ _. wished p) (λ _. moved p at))))))
  where
    wish : TablePlayer → Table
    wish p = change_player (wish_seat seat t.hand_number) p.id t

    wished : (p : TablePlayer) → Sound (wish p)
    wished p = change-Sound (wish_seat seat t.hand_number) p.id t ((λ q. refl), (λ q. refl)) v

    moved :
        (p : TablePlayer)
        → by_id t.players id ≡ some p
        → Sound (apply_seat_change (wish_seat seat t.hand_number p) (wish p))
    moved p at =
        let (here, own) = by_id-seat_of t.players id p at in
        let mine : seat_of (places t.players) p.id ≡ some p.seat =
          subst (λ k. seat_of (places t.players) k ≡ some p.seat) (sym own) here in
        let kept : seat_of (places (wish p).players) p.id ≡ some p.seat =
          subst (λ ls. seat_of ls p.id ≡ some p.seat)
            (sym
              (places-change (wish_seat seat t.hand_number) p.id t.players (λ q. refl) (λ q. refl)))
            mine in
        let (q, there, seat_kept, _) = seat_of-by_id (wish p).players p.id p.seat kept in
        apply_seat_change-Sound (wish_seat seat t.hand_number p) q (wish p) (wished p) there
          seat_kept

turn-betting :
    (h : Hand) (seat : ℕ)
    → is_turn_of h seat ≡ true
    → (is_betting h.phase ≡ true) × (seat ≡ turn_seat h)
unfolding seat_to_act
turn-betting h seat e = ground arith

arm-Sound :
    (d : Deps) (p : TablePlayer) (k : PreAction) (t : Table)
    → is_armed k ≡ true
    → Sound t
    → Ensures Sound (arm d p k t)
unfolding arm
arm-Sound d p k t on v = by_hand t.hand refl
  where
    armed : Table
    armed = change_player (λ q. record q { pre_action = k }) p.id t

    calm : Sound armed
    calm = change-Sound (λ q. record q { pre_action = k }) p.id t ((λ q. refl), (λ q. refl)) v

    by_hand :
        (o : Option Hand)
        → t.hand ≡ o
        → Ensures Sound (elim o [
          | none ↦ ok armed
          | some h ↦
              let acted =
                apply_pre_action h (record p { pre_action = k }) armed >>= after_engine d in
              if hand_in_progress t && (p.in_hand && is_turn_of h p.seat) then acted else ok armed
        ])
    by_hand none e = calm
    by_hand (some h) e =
        let (inv, turn) = hand_of t h v e in
        if_both (Ensures Sound) (hand_in_progress t && (p.in_hand && is_turn_of h p.seat))
          (λ f.
            let (b, seat) = turn-betting h p.seat (ground (arith, f)) in
            pre_action-Sound (owing h) (after_engine d) h (record p { pre_action = k }) armed
              (λ u w same sound few. after_engine-Sound d u sound) calm inv b (turn b) (omega arith)
              on seat)
          (λ _. calm)

pub set_pre_action-Sound :
    (d : Deps) (t : Table) (id : ℕ) (k : PreActionKind)
    → Sound t
    → Ensures Sound (set_pre_action d t id k)
unfolding set_pre_action
set_pre_action-Sound d t id pre_none v = seated_player-Ensures t id _ (λ p at.
    if_both Sound (is_sit_out_fold p.pre_action) (λ _. v)
      (λ _.
        change-Sound (λ q. record q { pre_action = unarmed }) p.id t ((λ q. refl), (λ q. refl)) v))
set_pre_action-Sound d t id other v = seated_player-Ensures t id _ (λ p at. tt)
set_pre_action-Sound d t id pre_check_fold v = seated_player-Ensures t id _ (λ p at.
    guard-Sound (is_sit_out_fold p.pre_action) (from_engine wrong_phase) _
      (arm-Sound d p check_fold t refl v))
set_pre_action-Sound d t id pre_call_any v = seated_player-Ensures t id _ (λ p at.
    guard-Sound (is_sit_out_fold p.pre_action) (from_engine wrong_phase) _
      (arm-Sound d p call_any t refl v))
