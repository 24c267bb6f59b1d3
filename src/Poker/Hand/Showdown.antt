-- ===== src/Poker/Hand/Showdown.antt =====
-- The showdown and the end of a street always return, to a valid hand with the same chips.
use showdown.Base.{
  ℕ, zero, suc, ap, ◌+◌, ◌≤◌, ◌<◌, ◌≡◌, refl, ◌∙◌, inl, inr, Bool, true, false, List, [], ◌∷◌,
  Option, none, some, arith, ltb, length, map, any, All, get_elem?, sum_by-map, Bool-cases,
  Option-cases,
}
use mathlib.Core.Path.{subst}
use showdown.Base.Outcome.{Outcome, ok, panic, Returns, ◌>>=◌}
use showdown.Poker.Types.{Player, Event, Error, deal_pending}
use showdown.Poker.Hand.State.{
  Hand, emit, worth, live, active, count, total_chips, next_of, index_from, clockwise,
}
use showdown.Poker.Hand.Round.{collect_one, return_uncalled}
use showdown.Poker.Hand.Show.{
  live_aggressor, show_start, live_seats, showdown_order, left_of_button, to_reveal, mem,
  mark_revealed, reveal_everyone,
}
use showdown.Poker.Hand.Turn.{
  is_river, is_pending, start_showdown, stage, await_deal, street_over, end_street,
}
use showdown.Poker.Hand.Chips.{worths, seated}
use showdown.Poker.Hand.Uncalled.{worths-collect, collect-no_bets}
use showdown.Poker.Hand.Shows.{reveal_where-IsOk, values_on-IsOk}
use showdown.Poker.Hand.Ids.{ids-map, in_range}
use showdown.Poker.Hand.Inv.{
  same_ids, set_turn, get_in-range, Dealt, NoBets, Good, board-le, river_size,
}
use showdown.Poker.Hand.Paying.{Seated}
use showdown.Poker.Hand.Scan.{scan-found, scan_sound, next-lt, get-lt, round-Reached}
use showdown.Poker.Hand.Order.{live_at, live_seats-only, live_seats-every}
use showdown.Poker.Hand.Awards.{
  award_pots-Good, return_uncalled-Keeps, mark_revealed-NoBets, ids-mark_revealed,
}

get-seated :
    (ps : List Player) (i : ℕ) (p : Player) → get_elem? ps i ≡ some p → seated ps p.seat ≡ true
get-seated [] i p h = cc
get-seated (q ∷ ps) zero p h = ground (arith, h)
get-seated (q ∷ ps) (suc i) p h = ground (arith, get-seated ps i p h)

live_seats-Seated : (ps : List Player) (is : List ℕ) → Seated ps (live_seats ps is)
live_seats-Seated ps [] = tt
live_seats-Seated ps (i ∷ is) = elim (Option-cases (get_elem? ps i)) [
  | inl e ↦ rw (e, live_seats) (live_seats-Seated ps is)
  | inr (p, e) ↦ elim (Bool-cases (live p)) [
    | inl l ↦ rw (e, live_seats, l) (get-seated ps i p e, live_seats-Seated ps is)
    | inr l ↦ rw (e, live_seats, l) (live_seats-Seated ps is)
  ]
]

pub any-live : (ps : List Player) → 1 ≤ count live ps → any live ps ≡ true
any-live [] h = absurd (omega arith)
any-live (p ∷ ps) h = ground (arith, any-live ps)

pub some_players : (ps : List Player) → 1 ≤ count live ps → 0 < length ps
some_players [] h = absurd (omega arith)
some_players (p ∷ ps) h = omega arith

pub next_of-lt : (ps : List Player) (o : Option ℕ) → 0 < length ps → next_of ps o < length ps
next_of-lt ps none h = h
next_of-lt ps (some i) h = next-lt ps i h

-- The aggressor is looked up in range.
live_aggressor-IsOk :
    (h : Hand)
    → Dealt h
    → (o : Option ℕ) × (live_aggressor h ≡ ok o) × (in_range o (length h.players) ≡ true)
unfolding live_aggressor
live_aggressor-IsOk h d = elim (Option-cases h.aggressor) [
  | inl e ↦ rw (e, live_aggressor) (none, refl, refl)
  | inr (i, e) ↦
      let (p, at) = get_in-range h i d e in
      elim (Bool-cases p.folded) [
        | inl f ↦ rw (e, live_aggressor, at, f) (none, refl, refl)
        | inr f ↦
            rw (e, live_aggressor, at, f) (some i, refl, ground (arith, get-lt h.players i p at))
      ]
]

show_start-found :
    (h : Hand) (o : Option ℕ)
    → 1 ≤ count live h.players
    → in_range o (length h.players) ≡ true
    → (i : ℕ) × (i < length h.players) × (show_start h o ≡ some i)
unfolding show_start
show_start-found h none l here =
    let (i, e) =
      scan-found live h.players (left_of_button h)
        (next_of-lt h.players (index_from 0 h.cfg.button_seat h.players) (some_players h.players l))
        (any-live h.players l) in
    let (p, at, y) = scan_sound live h.players (left_of_button h) (length h.players) i e in
    (i, get-lt h.players i p at, e)
show_start-found h (some i) l here = (i, ground (arith, here), refl)

-- What `showdownOrder` returns once the start is found.
started :
    (h : Hand) (o : Option ℕ) (i : ℕ)
    → live_aggressor h ≡ ok o
    → show_start h o ≡ some i
    → showdown_order h ≡ ok (live_seats h.players (clockwise h.players i (length h.players)))
unfolding showdown_order
started h o i f e = ap (λ m. m >>= from) f ∙ rw (e, from) refl
  where
    from : Option ℕ → Outcome Error (List ℕ)
    from a = elim (show_start h a) [
      | none ↦ panic
      | some i ↦ ok (live_seats h.players (clockwise h.players i (length h.players)))
    ]

order-started :
    (h : Hand)
    → Dealt h
    → 1 ≤ count live h.players
    → (o : Option ℕ) × (i : ℕ) × (i < length h.players)
      × (showdown_order h ≡ ok (live_seats h.players (clockwise h.players i (length h.players))))
order-started h d l =
    let (o, f, here) = live_aggressor-IsOk h d in
    let (i, lt, e) = show_start-found h o l here in (o, i, lt, started h o i f e)

-- On a valid deal with a player left `showdownOrder` returns an order in which each player who did
-- not fold has their seat, and no seat stands but that of a player who did not fold.
pub showdown_order-IsOk :
    (h : Hand)
    → Dealt h
    → 1 ≤ count live h.players
    → (order : List ℕ) × (showdown_order h ≡ ok order)
      × All (λ s. live_at h.players s ≡ true) order
      × ((j : ℕ) (p : Player)
          → get_elem? h.players j ≡ some p
          → live p ≡ true
          → mem p.seat order ≡ true)
showdown_order-IsOk h d l =
    let (o, i, lt, found) = order-started h d l in
    (
      live_seats h.players (clockwise h.players i (length h.players)),
      found,
      live_seats-only h.players (clockwise h.players i (length h.players)),
      λ j p e y.
          let g = get-lt h.players j p e in
          live_seats-every h.players i j p lt g (round-Reached (length h.players) i j g) e y,
    )

-- The seats of the order are seats of the hand.
order-Seated :
    (h : Hand)
    → Dealt h
    → 1 ≤ count live h.players
    → (order : List ℕ) × (showdown_order h ≡ ok order) × Seated h.players order
order-Seated h d l =
    let (o, i, lt, found) = order-started h d l in
    (_, found, live_seats-Seated h.players (clockwise h.players i (length h.players)))

pending-nonempty :
    (ps : List Player) (order : List ℕ) → is_pending ps order ≡ true → 0 < length order
pending-nonempty ps [] h = cc
pending-nonempty ps (s ∷ ss) h = omega arith

stage-Good :
    (h : Hand) (es : List Event) (order : List ℕ)
    → Dealt h
    → is_river h.street ≡ true
    → NoBets h.players
    → 2 ≤ count live h.players
    → 0 < length order
    → Seated h.players order
    → Returns (Good (total_chips h)) (stage (h, es) order)
unfolding stage
stage-Good h es order d r n l some_one here =
    let size = river_size h.street r in
    let (vs, e) =
      values_on-IsOk h.players h.board (omega (arith, d.board_full, size))
        (omega (arith, d.board_full, size)) d.board_valid d.players_known in
    rw e (record { dealt = d; by_phase = (n, l, r, (order, refl, some_one, here)) }, refl)

-- At the river the showdown starts or the pots are awarded at once.
pub start_showdown-Good :
    (h : Hand) (es : List Event)
    → Dealt h
    → is_river h.street ≡ true
    → NoBets h.players
    → 2 ≤ count live h.players
    → Returns (Good (total_chips h)) (start_showdown (h, es))
unfolding start_showdown
start_showdown-Good h es d r n l =
    let here = record h { to_act = none } in
    let rest : Dealt here = set_turn none refl d in
    let (order, e, ss) = order-Seated here rest (omega arith) in
    rw e (elim (Bool-cases (is_pending h.players order)) [
      | inl p ↦ rw p (stage-Good here es order rest r n l (pending-nonempty h.players order p) ss)
      | inr p ↦ rw p (award_pots-Good here es rest r n (omega arith))
    ])

mark_revealed-worths :
    (t : Player → Bool) (ps : List Player) → worths (mark_revealed t ps) ≡ worths ps
mark_revealed-worths t ps = sum_by-map worth _ (λ p. ground arith) ps

mark_revealed-count :
    (t : Player → Bool) (ps : List Player) → count live (mark_revealed t ps) ≡ count live ps
mark_revealed-count t ps = sum_by-map _ _ (λ p. ground arith) ps

await_deal-Good :
    (h : Hand) (es : List Event)
    → Dealt h
    → is_river h.street ≡ false
    → NoBets h.players
    → 2 ≤ count live h.players
    → Returns (Good (total_chips h)) (await_deal (h, es))
unfolding await_deal reveal_everyone
await_deal-Good h es d r n l = elim (Bool-cases (ltb (count active h.players) 2)) [
  | inl f ↦
      let (m, out, e) =
        reveal_where-IsOk to_reveal (record h { phase = deal_pending; runout = true }) es
          (board-le h d) d.board_valid d.players_known in
      rw (f, e)
        (
          record {
            dealt = same_ids (ids-mark_revealed to_reveal h.players) d;
            by_phase = (
              mark_revealed-NoBets to_reveal h.players n,
              omega (arith, mark_revealed-count to_reveal h.players),
              r,
            );
          },
          mark_revealed-worths to_reveal h.players,
        )
  | inr f ↦ rw f (record { dealt = d; by_phase = (n, l, r) }, refl)
]

street_over-Good :
    (h : Hand) (es : List Event)
    → Dealt h
    → NoBets h.players
    → 2 ≤ count live h.players
    → Returns (Good (total_chips h)) (street_over (h, es))
unfolding street_over
street_over-Good h es d n l = elim (Bool-cases (is_river h.street)) [
  | inl r ↦ rw r (start_showdown-Good (record h { to_act = none }) es (set_turn none refl d) r n l)
  | inr r ↦ rw r (await_deal-Good (record h { to_act = none }) es (set_turn none refl d) r n l)
]

-- The end of a street.
pub end_street-Good :
    (h : Hand) (es : List Event)
    → Dealt h
    → 2 ≤ count live h.players
    → Returns (Good (total_chips h)) (end_street (h, es))
unfolding end_street emit
end_street-Good h es d l =
    let k : Hand = (return_uncalled (h, es)).0 in
    let kept = return_uncalled-Keeps h es in
    let alive : count live (map collect_one k.players) ≡ count live k.players =
      sum_by-map _ collect_one (λ p. refl) k.players in
    subst (λ c. Returns (Good c) (end_street (h, es))) (worths-collect k.players ∙ kept.chips_kept)
      (street_over-Good (record k { players = map collect_one k.players; seq = k.seq + 1 }) _
        (same_ids (ids-map collect_one k.players λ q. refl) (kept.deal_kept d))
        (collect-no_bets k.players) (omega (arith, alive, kept.live_kept)))
