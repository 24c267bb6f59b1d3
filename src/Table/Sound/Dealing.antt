-- ===== src/Table/Sound/Dealing.antt =====
-- hand.go: dealing a hand and moving to another seat keep a table sound.
use showdown.Base.{All, all, true, take, Option-cases}
use showdown.Table.Seats.{players_in, by_id, is_active}
use showdown.Table.Seating.{by_id-seat_of}
use showdown.Base.Int.{ltb_ℤ, pos}
use showdown.Table.Sound.{All-filter}
use showdown.Base.{
  ℕ, zero, suc, ◌+◌, ◌%◌, ◌<◌, ◌≤◌, ◌≡◌, refl, sym, ◌∙◌, ap, ◌⊎◌, inl, inr, false, not, ◌&&◌, ◌||◌,
  List, [], ◌∷◌, Option, none, some, arith, ◌==◌, map, ltb, leb, if◌then◌else◌, if_both, length,
  get_elem?, or_false, Bool-cases, Option-cases,
}
use mathlib.Core.Path.{subst}
use showdown.Base.Int.{pos_part}
use showdown.Base.Outcome.{Outcome, ok, refused, panic, ◌>>=◌, Ensures, Whenever}
use showdown.Poker.Types
use showdown.Poker.Hand.State.{Run}
use showdown.Poker.Hand.Deal.{new_hand}
use showdown.Poker.Hand.Inv.{Good}
use showdown.Poker.Hand.Straddles.{FairStraddle}
use showdown.Poker.Hand.Starts.{KeepsCards, in_seat, brought, new_hand-Good}
use showdown.Poker.Hand.Moments.{Leads, new_hand-Leads}
use showdown.Table.Settings.{Settings}
use showdown.Table.Types.{
  TablePlayer, Table, Deps, running, paused, table_started, table_paused, saved_table,
  saved_hand_start,
}
use showdown.Table.Seats.{
  by_id, id_at, change, change_player, player_at, eligible, has_hand, seat_limit, max_seats, note,
}
use showdown.Table.Clock.{is_waiting, is_running, set_state, arm_blinds_clock, raise_blinds}
use showdown.Table.Finish.{each_seat, all_seats, without_seat}
use showdown.Table.Engine.{after_engine}
use showdown.Table.Deal.{
  engine_hand, is_free, move_to, apply_seat_change, apply_pending_seat_changes, with_seat,
  next_button, seat_after, straddler, straddle_amount_of, config_of, seats_of, each_player,
  unburden, deal_in, no_vote, dealt, deal_from, raise_due, start_hand, maybe_start_hand,
}
use showdown.Table.Seating.{places, Seating, by_id-seat_of}
use showdown.Table.Seating.Moves.{move-Seating}
use showdown.Table.Sound.{Sound, core, Stays, Sound-same, core-change}
use showdown.Table.Sound.Playing.{take_run-Sound, after_engine-Sound}

-- `RandIntn` returns an index below its argument, and the shuffle cards of the deck.
abbrev pub Picks : Deps → Type 0
Picks d = ((n : ℕ) → 0 < n → d.rand_intn n < n) × KeepsCards (some d.shuffle)

-- Players in the ten seats.
abbrev Below : List TablePlayer → Type 0
Below es = All (λ p. ltb p.seat 10 ≡ true) es

id_at-lt : (os : List (Option ℕ)) (i id : ℕ) → id_at os i ≡ some id → i < length os
id_at-lt [] i id e = cc
id_at-lt (o ∷ os) zero id e = omega arith
id_at-lt (o ∷ os) (suc i) id e = omega (arith, id_at-lt os i id e)

seated-Below : (t : Table) (os : List (Option ℕ)) → Sound t → Below (players_in os t.players)
seated-Below t [] v = tt
seated-Below t (none ∷ os) v = seated-Below t os v
seated-Below t (some id ∷ os) v = elim (Option-cases (by_id t.players id)) [
  | inl e ↦ rw (e, All, players_in) (seated-Below t os v)
  | inr (p, e) ↦
      let (here, own) = by_id-seat_of t.players id p e in
      let at : id_at t.seats p.seat ≡ some id = v.0.0.placed id p.seat here in
      let low : p.seat < length t.seats = id_at-lt t.seats p.seat id at in
      rw (e, All, players_in) (ground (arith, low, v.0.0.sized), seated-Below t os v)
]

eligible-Below : (t : Table) → Sound t → Below (eligible t)
eligible-Below t v =
    All-filter (λ p. ltb p.seat 10 ≡ true) (λ p. is_active p.status && ltb 0 p.stack)
      (players_in (take (seat_limit t) t.seats) t.players)
      (seated-Below t (take (seat_limit t) t.seats) v)

seats_of-Below : (es : List TablePlayer) → Below es → all in_seat (seats_of es) ≡ true
seats_of-Below [] h = refl
seats_of-Below (p ∷ es) h = rw h.0 (seats_of-Below es h.1)

pub core-each_player :
    (f : TablePlayer → TablePlayer) (ps : List TablePlayer) (t : Table)
    → Stays f
    → core (each_player f ps t) ≡ core t
core-each_player f [] t s = refl
core-each_player f (p ∷ ps) t s = core-each_player f ps _ s ∙ core-change f p.id t s

config_of-FairStraddle :
    (s : Settings) (button : ℕ) (es : List TablePlayer) → FairStraddle (config_of s button es)
unfolding config_of
config_of-FairStraddle s button es = by_seat (straddler s button es)
  where
    by_seat :
        (o : Option ℕ)
        → (straddle_amount_of s o ≡ 0) ⊎ (pos_part s.big_blind ≤ straddle_amount_of s o)
    by_seat none = inl refl
    by_seat (some seat) = inr (omega arith)

deal_from-Sound :
    (d : Deps) (button : ℕ) (es : List TablePlayer) (t : Table)
    → KeepsCards (some d.shuffle)
    → Below es
    → Sound t
    → Ensures Sound (deal_from d button es t)
unfolding deal_from engine_hand
deal_from-Sound d button es t keeps below v =
    let started = new_hand (config_of t.settings button es) (seats_of es) (some d.shuffle) in
    by_hand (engine_hand d button es t.settings)
      (if_both (Ensures (Good (brought (seats_of es)))) (ltb_ℤ t.settings.ante (pos 0))
        {y = started} (λ _. tt)
        (λ _.
          new_hand-Good (config_of t.settings button es) (seats_of es) (some d.shuffle)
            (config_of-FairStraddle t.settings button es) (seats_of-Below es below) keeps))
      (if_both (Whenever Leads) (ltb_ℤ t.settings.ante (pos 0)) {y = started} (λ _. tt)
        (λ _. new_hand-Leads (config_of t.settings button es) (seats_of es) (some d.shuffle)))
  where
    ready : Table
    ready = no_vote (each_player unburden es t)

    calm : Sound ready
    calm = Sound-same t ready (core-each_player unburden es t ((λ q. refl), (λ q. refl))) v

    by_hand :
        (m : Outcome Types.Error Run)
        → Ensures (Good (brought (seats_of es))) m
        → Whenever Leads m
        → Ensures Sound (elim m [
          | ok r ↦ after_engine d (dealt d button es r ready)
          | refused e ↦ ok (set_state paused table_paused ready)
          | panic ↦ panic
        ])
    by_hand (ok r) g l =
        after_engine-Sound d (dealt d button es r ready) (take_run-Sound r told sound g.0 l)
      where
        set : Table
        set = record ready {
          hand = some r.0;
          rabbit_cards = none;
          hand_number = ready.hand_number + 1;
          button_seat = some button;
          hand_started_at = d.now;
          hand_start_stacks = map (λ (p : TablePlayer). (p.seat, p.stack)) es;
          seq = 0;
        }

        told : Table
        told = note saved_table (note saved_hand_start (each_player deal_in es set))

        sound : Sound told
        sound =
            Sound-same set told (core-each_player deal_in es set ((λ q. refl), (λ q. refl)))
              (calm.0, (g.0, l))
    by_hand (refused e) g l = calm
    by_hand panic g l = absurd g

raise_due-core : (d : Deps) (t : Table) → core (raise_due d t) ≡ core t
unfolding raise_due raise_blinds arm_blinds_clock
raise_due-core d t = elim (Bool-cases (ltb 0 t.blinds_up_at && leb t.blinds_up_at d.now)) [
  | inl e ↦ rw (e, raise_due) refl
  | inr e ↦ rw (e, raise_due) refl
]

some_at : {A : Type 0} (xs : List A) (i : ℕ) → i < length xs → (x : A) × (get_elem? xs i ≡ some x)
some_at [] i h = absurd (omega arith)
some_at (x ∷ xs) zero h = (x, refl)
some_at (x ∷ xs) (suc i) h = some_at xs i (omega arith)

start_hand-Sound :
    (d : Deps) (es : List TablePlayer) (t : Table)
    → Picks d
    → 2 ≤ length es
    → Below es
    → Sound t
    → Ensures Sound (start_hand d es t)
unfolding start_hand next_button
start_hand-Sound d es t picks two below v = by_button t.button_seat
  where
    go : (button : ℕ) → Ensures Sound (deal_from d button es (raise_due d t))
    go button =
        deal_from-Sound d button es (raise_due d t) picks.1 below
          (Sound-same t (raise_due d t) (raise_due-core d t) v)

    by_button :
        (o : Option ℕ)
        → Ensures Sound (next_button d es o >>= λ button. deal_from d button es (raise_due d t))
    by_button none =
        let (p, e) =
          some_at es (d.rand_intn (length es)) (picks.0 (length es) (omega (arith, two))) in
        rw (e, Ensures, next_button) (go p.seat)
    by_button (some b) = elim (Option-cases (seat_after es ((b + 1) % max_seats) max_seats)) [
      | inl e ↦ rw (e, Ensures, next_button) (go max_seats)
      | inr (s, e) ↦ rw (e, Ensures, next_button) (go s)
    ]

pub maybe_start_hand-Sound :
    (d : Deps) (t : Table) → Picks d → Sound t → Ensures Sound (maybe_start_hand d t)
unfolding maybe_start_hand arm_blinds_clock
maybe_start_hand-Sound d t picks v = elim (Bool-cases (has_hand t || ltb (length (eligible t)) 2)) [
  | inl e ↦ rw (e, Ensures, maybe_start_hand) v
  | inr e ↦
      rw (e, Ensures, maybe_start_hand)
        (if_both (Ensures Sound) (is_running started.state)
          (λ _.
            start_hand-Sound d (eligible t) started picks (ground (arith, e)) (eligible-Below t v)
              ready)
          (λ _. ready))
]
  where
    started : Table
    started =
        if is_waiting t.state && t.settings.auto_start
        then arm_blinds_clock d (set_state running table_started t)
        else t

    ready : Sound started
    ready = if_both Sound (is_waiting t.state && t.settings.auto_start) (λ _. v) (λ _. v)

pub free_none : (os : List (Option ℕ)) (i : ℕ) → not (is_free os i) ≡ false → id_at os i ≡ none
free_none os i e = elim (Option-cases (id_at os i)) [
  | inl f ↦ f
  | inr (id, f) ↦ cc (rw (f, is_free) at e)
]

-- A wish that is over does not matter for a move.
places-move :
    (to id : ℕ) (ps : List TablePlayer)
    → places (
        change
          (λ q. record q { seat = to })
          id
          (change (λ q. record q { pending_seat = none }) id ps))
      ≡ places (change (λ q. record q { seat = to }) id ps)
places-move to id [] = refl
places-move to id (p ∷ ps) = elim (Bool-cases (p.id == id)) [
  | inl e ↦ rw (e, e) refl
  | inr e ↦ rw (e, e) (ap (λ ls. (p.id, p.seat) ∷ ls) (places-move to id ps))
]

-- A move that was wished for.
pub apply_seat_change-Sound :
    (p q : TablePlayer) (t : Table)
    → Sound t
    → by_id t.players p.id ≡ some q
    → q.seat ≡ p.seat
    → Sound (apply_seat_change p t)
unfolding apply_seat_change
apply_seat_change-Sound p q t v at seat = by_wish p.pending_seat
  where
    asked : Table
    asked = change_player (λ q. record q { pending_seat = none }) p.id t

    calm : Sound asked
    calm = Sound-same t asked (core-change _ p.id t ((λ q. refl), (λ q. refl))) v

    there : ℕ → Table
    there to = record t {
      seats = with_seat to p.id (without_seat p.seat t.seats);
      players = change (λ q. record q { seat = to }) p.id t.players;
    }

    same : (to : ℕ) → core (move_to to p asked) ≡ core (there to)
    same to =
        ap (λ ls. (with_seat to p.id (without_seat p.seat t.seats), ls, t.hand, seat_limit t))
          (places-move to p.id t.players)

    by_wish :
        (o : Option ℕ)
        → Sound (elim o [
          | none ↦ asked
          | some to ↦
              if leb (seat_limit t) to || not (is_free t.seats to)
              then asked
              else move_to to p asked
        ])
    by_wish none = calm
    by_wish (some to) =
        if_both Sound (leb (seat_limit t) to || not (is_free t.seats to)) (λ _. calm)
          (λ e.
            let (below, taken) = or_false (leb (seat_limit t) to) (not (is_free t.seats to)) e in
            let empty : id_at t.seats to ≡ none = free_none t.seats to taken in
            let moved =
              move-Seating t.seats t.players p.id to q v.0.0 at empty
                (ground (arith, below, v.0.1)) in
            Sound-same (there to) (move_to to p asked) (same to) (
              (
                subst
                    (λ s.
                      Seating (with_seat to p.id (without_seat s t.seats))
                        (places (there to).players))
                    seat moved,
                v.0.1,
              ),
              v.1,
            ))

each_move-Sound :
    (is : List ℕ) (t : Table)
    → Sound t
    → Sound
        (each_seat (λ p u. elim p.pending_seat [ none ↦ u | some to ↦ apply_seat_change p u ]) is t)
each_move-Sound [] t v = v
each_move-Sound (i ∷ is) t v = elim (Option-cases (id_at t.seats i)) [
  | inl e ↦ rw (e, each_seat, player_at) (each_move-Sound is t v)
  | inr (id, e) ↦ elim (Option-cases (by_id t.players id)) [
    | inl f ↦ rw (e, each_seat, player_at, f) (each_move-Sound is t v)
    | inr (p, f) ↦
        rw (e, each_seat, player_at, f)
          (each_move-Sound is _ (
            one p
              (subst (λ k. by_id t.players k ≡ some p) (sym (by_id-seat_of t.players id p f).1) f)
              p.pending_seat))
  ]
]
  where
    one :
        (p : TablePlayer)
        → by_id t.players p.id ≡ some p
        → (o : Option ℕ) → Sound (elim o [ none ↦ t | some to ↦ apply_seat_change p t ])
    one p f none = v
    one p f (some to) = apply_seat_change-Sound p p t v f refl

pub apply_pending_seat_changes-Sound : (t : Table) → Sound t → Sound (apply_pending_seat_changes t)
unfolding apply_pending_seat_changes
apply_pending_seat_changes-Sound t v = each_move-Sound all_seats t v
