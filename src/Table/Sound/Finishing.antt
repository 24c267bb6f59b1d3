-- ===== src/Table/Sound/Finishing.antt =====
-- hand.go: what happens between two hands keeps a table sound.
use mathlib.Core.Path.{subst}
use showdown.Base.{
  ℕ, suc, ◌+◌, ◌≡◌, refl, sym, ◌∙◌, inl, inr, Bool, true, false, not, ◌&&◌, ◌||◌, List, [], ◌∷◌,
  none, ◌==◌, ltb, leb, if◌then◌else◌, if_both, Option-cases, any, filter, insertion_sort,
}
use showdown.Base.Outcome.{Outcome, ok, refused, panic, Ensures, Ensures-bind, Ensures-map}
use showdown.Poker.Types.{Results, SeatResult, PotAward, PotWinner}
use showdown.Table.Types.{
  TablePlayer, Table, TableError, Deps, ChipAdjust, paused, table_paused, sitting_out, hand_results,
  table_over, no_phase, ended,
}
use showdown.Table.Seats.{
  by_id, id_at, cancel_timer, is_active, is_done, is_ended, change_player, player_at,
  persist_player, note, emit, seated, seated_count, players_with_chips, seat_limit,
}
use showdown.Table.Clock.{is_running, set_state, apply_chips}
use showdown.Table.Finish.{
  each_seat, all_seats, settle_seat, settle_seats, note_winner, note_winners, note_pots,
  check_chips, start_sum, end_sum, closed, bust, sit_out_missed, close_player, close_hand,
  free_seats, free_seat, apply_pending, last_standing, finish_hand, extend_result_phase, place_from,
  assign_places, ranks_before, end_table, give_back, void_hand,
}
use showdown.Table.Seating.{places}
use showdown.Table.Sound.{
  Sound, SoundCore, core, Sound-same, core-change, core-each_seat, apply_chips-core,
  free_seats-Sound, leavers-FitsIn, free_seat-Sound, player_at-FitsIn,
}

-- A conditional change that leaves the core in both cases.
pub core-if :
    (t : Table) (b : Bool) (u v : Table)
    → core u ≡ core t
    → core v ≡ core t
    → core (if b then u else v) ≡ core t
core-if t true u v h k = h
core-if t false u v h k = k

core-settle_seats : (rs : List SeatResult) (t : Table) → core (settle_seats rs t) ≡ core t
core-settle_seats [] t = refl
core-settle_seats (r ∷ rs) t = core-settle_seats rs (settle_seat r t) ∙ one
  where
    one : core (settle_seat r t) ≡ core t
    one = elim (Option-cases (player_at t r.seat)) [
      | inl e ↦ rw (e, settle_seat) refl
      | inr (p, e) ↦ rw (e, settle_seat) (core-change _ p.id t ((λ q. refl), (λ q. refl)))
    ]

core-note_winners : (ws : List PotWinner) (t : Table) → core (note_winners ws t) ≡ core t
core-note_winners [] t = refl
core-note_winners (w ∷ ws) t = core-note_winners ws (note_winner w t) ∙ one
  where
    one : core (note_winner w t) ≡ core t
    one = elim (Option-cases (player_at t w.seat)) [
      | inl e ↦ rw (e, note_winner) refl
      | inr (p, e) ↦ rw (e, note_winner) (core-change _ p.id t ((λ q. refl), (λ q. refl)))
    ]

core-note_pots : (awards : List PotAward) (t : Table) → core (note_pots awards t) ≡ core t
core-note_pots [] t = refl
core-note_pots (a ∷ rest) t =
    core-note_pots rest (note_winners a.winners t) ∙ core-note_winners a.winners t

core-check_chips : (r : Results) (t : Table) → core (check_chips r t) ≡ core t
core-check_chips r t =
    core-if t (start_sum r == end_sum r) t _ refl
      (core-if t (is_running t.state) (set_state paused table_paused t) t refl refl)

core-bust : (p : TablePlayer) (t : Table) → core (bust p t) ≡ core t
core-bust p t =
    core-if t (p.stack == 0 && is_active p.status) _ t
      (core-change _ p.id t ((λ q. refl), (λ q. refl))) refl

core-sit_out_missed : (id : ℕ) (t : Table) → core (sit_out_missed id t) ≡ core t
core-sit_out_missed id t = elim (Option-cases (by_id t.players id)) [
  | inl e ↦ rw (e, sit_out_missed) refl
  | inr (p, e) ↦
      let late : Table = record t {
        sit_out_pending = filter (λ i. not (i == id)) t.sit_out_pending;
      } in
      let idle : Table = change_player (λ q. record q { missed_turns = 0 }) id late in
      let same : core idle ≡ core t = core-change _ id late ((λ q. refl), (λ q. refl)) in
      rw (e, sit_out_missed)
        (core-if t (any (λ i. i == id) t.sit_out_pending) _ t
          (core-if t (is_active p.status) _ idle
            (core-change (λ q. record q { status = sitting_out }) id idle ((λ q. refl), (λ q. refl))
              ∙ same)
            same)
          refl)
]

core-close_player : (r : Results) (p : TablePlayer) (t : Table) → core (close_player r p t) ≡ core t
core-close_player r p t =
    let counted : Table = change_player (closed r t) p.id t in
    let done : Table = sit_out_missed p.id (bust p counted) in
    let same : core done ≡ core t =
      core-sit_out_missed p.id (bust p counted)
      ∙ core-bust p counted
      ∙ core-change (closed r t) p.id t ((λ q. refl), (λ q. refl)) in
    core-if t p.in_hand _ t (core-if t p.leaving done (persist_player p.id done) same same) refl

core-close_hand : (r : Results) (t : Table) → core (close_hand r t) ≡ core t
core-close_hand r t =
    let paid : Table = note_pots r.pots (settle_seats r.seats t) in
    core-each_seat (close_player r) (core-close_player r) all_seats
      (note hand_results (check_chips r paid))
    ∙ core-check_chips r paid
    ∙ core-note_pots r.pots (settle_seats r.seats t)
    ∙ core-settle_seats r.seats t

core-last_standing : (t : Table) → core (last_standing t) ≡ core t
core-last_standing t =
    core-if t (not t.settings.allow_rebuy && leb 2 (seated_count t) && leb (players_with_chips t) 1)
      (record t { end_after_hand = true }) t refl refl

-- A change that waits is applied or passed over, and the rest follows.
pending_step :
    (d : Deps) (cs : List ChipAdjust) (t : Table) (m : Outcome TableError Table)
    → ((u : Table) → Ensures (λ w. core w ≡ core u) (apply_pending d cs u))
    → Ensures (λ u. core u ≡ core t) m
    → Ensures
        (λ w. core w ≡ core t)
        (elim m [ ok u ↦ apply_pending d cs u | refused e ↦ apply_pending d cs t | panic ↦ panic ])
pending_step d cs t (ok u) rest same =
    Ensures-map (λ w. core w ≡ core u) (λ w. core w ≡ core t) (apply_pending d cs u)
      (λ w e. e ∙ same) (rest u)
pending_step d cs t (refused e) rest same = rest t
pending_step d cs t panic rest same = absurd same

apply_pending-core :
    (d : Deps) (cs : List ChipAdjust) (t : Table)
    → Ensures (λ u. core u ≡ core t) (apply_pending d cs t)
unfolding apply_pending
apply_pending-core d [] t = refl
apply_pending-core d (c ∷ cs) t = elim (Option-cases (by_id t.players c.player)) [
  | inl e ↦ rw (e, Ensures, apply_pending) (apply_pending-core d cs t)
  | inr (p, e) ↦
      rw (e, Ensures, apply_pending)
        (pending_step d cs t (apply_chips d p c.delta t) (apply_pending-core d cs)
          (apply_chips-core d p c.delta t))
]

-- `finishHand` of a sound table leaves a sound table, and does not panic.
pub finish_hand-Sound :
    (d : Deps) (r : Results) (t : Table) → Sound t → Ensures Sound (finish_hand d r t)
unfolding finish_hand
finish_hand-Sound d r t v =
    let closed_hand : Table = close_hand r t in
    let sound : Sound closed_hand = Sound-same t closed_hand (core-close_hand r t) v in
    let freed : Table =
      free_seats (filter (λ p. p.in_hand && p.leaving) (seated closed_hand)) closed_hand in
    let empty : Sound freed =
      free_seats-Sound _ closed_hand sound
        (leavers-FitsIn (λ p. p.in_hand && p.leaving) closed_hand sound) in
    Ensures-bind (λ u. core u ≡ core freed) Sound
      (apply_pending d freed.pending_chips (record freed { pending_chips = [] })) _
      (apply_pending-core d freed.pending_chips (record freed { pending_chips = [] }))
      (λ u same. Sound-same freed (last_standing u) (core-last_standing u ∙ same) empty)

pub core-extend_result_phase : (d : Deps) (t : Table) → core (extend_result_phase d t) ≡ core t
unfolding extend_result_phase
core-extend_result_phase d t =
    core-if t (not (is_done t) || is_ended t.state) t _ refl
      (core-if t (ltb t.phase_ends_at (d.now + d.delays.result_extension)) _ _ refl refl)

core-place_from : (n : ℕ) (ps : List TablePlayer) (t : Table) → core (place_from n ps t) ≡ core t
core-place_from n [] t = refl
core-place_from n (p ∷ ps) t =
    core-place_from (suc n) ps _
    ∙ core-change (λ q. record q { place = n }) p.id t ((λ q. refl), (λ q. refl))

-- The table without its hand.
pub no_hand-Sound :
    (t u : Table) → core u ≡ (t.seats, places t.players, none, seat_limit t) → Sound t → Sound u
no_hand-Sound t u e v = subst SoundCore (sym e) (v.0, tt)

pub end_table-Sound : (d : Deps) (t : Table) → Sound t → Sound (end_table d t)
unfolding end_table assign_places
end_table-Sound d t v =
    let over : Table = emit table_over (record t {
      timer = none;
      hand = none;
      hand_phase = no_phase;
      state = ended;
      ended_at = d.now;
      blinds_up_at = 0;
    }) in
    let placed : Table = assign_places over in
    no_hand-Sound t (end_table d t)
      (core-each_seat (λ p u. persist_player p.id (change_player stand_up p.id u))
          (λ p u. core-change stand_up p.id u ((λ q. refl), (λ q. refl))) all_seats placed
        ∙ core-place_from 1 (insertion_sort ranks_before (filter (λ p. p.place == 0) (seated over)))
            over)
      v
  where
    stand_up : TablePlayer → TablePlayer
    stand_up q = record q { in_hand = false }

give_back-core : (ss : List (ℕ × ℕ)) (t : Table) → core (give_back ss t) ≡ core t
give_back-core [] t = refl
give_back-core ((seat, stack) ∷ ss) t = elim (Option-cases (player_at t seat)) [
  | inl e ↦ rw (e, give_back) (give_back-core ss t)
  | inr (p, e) ↦
      rw (e, give_back) (give_back-core ss _ ∙ core-change _ p.id t ((λ q. refl), (λ q. refl)))
]

-- Freeing the seats of those who leave.
each_leaver-Sound :
    (is : List ℕ) (t : Table)
    → Sound t
    → Sound (each_seat (λ p u. if p.leaving then free_seat p u else u) is t)
each_leaver-Sound [] t v = v
each_leaver-Sound (i ∷ is) t v = elim (Option-cases (id_at t.seats i)) [
  | inl e ↦ rw (e, each_seat, player_at) (each_leaver-Sound is t v)
  | inr (id, e) ↦ elim (Option-cases (by_id t.players id)) [
    | inl f ↦ rw (e, each_seat, player_at, f) (each_leaver-Sound is t v)
    | inr (p, f) ↦
        rw (e, each_seat, player_at, f)
          (each_leaver-Sound is (if p.leaving then free_seat p t else t) (
            if_both Sound p.leaving (λ _. free_seat-Sound p t v (player_at-FitsIn t id p v f))
              (λ _. v)))
  ]
]

pub void_hand-Sound : (t : Table) → Sound t → Sound (void_hand t)
unfolding void_hand
void_hand-Sound t v =
    let back : Table = give_back t.hand_start_stacks (cancel_timer t) in
    let same : core back ≡ core t = give_back-core t.hand_start_stacks (cancel_timer t) in
    each_leaver-Sound all_seats _ ((Sound-same t back same v).0, tt)
