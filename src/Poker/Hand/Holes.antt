-- ===== src/Poker/Hand/Holes.antt =====
-- Dealing the hole cards and opening the first round.
use showdown.Base.{
  ℕ, zero, suc, ◌+◌, ◌*◌, ◌≤◌, ◌<◌, ◌≡◌, refl, sym, ◌∙◌, inl, inr, Bool, true, false, List, [], ◌∷◌,
  arith, ◌==◌, if◌then◌else◌, length, length-modify, get_elem?, modify, sum_by-modify, All-modify,
  Option-cases, if_both,
}
use mathlib.Core.Path.{subst}
use showdown.Base.Outcome.{ok, ◌>>=◌, Returns}
use showdown.Poker.Types.{Player, Event, hand_started}
use showdown.Poker.Hand.State.{
  Hand, Run, emit, draw, worth, live, count, total_chips, next, next_of, clockwise, index_from,
}
use showdown.Poker.Hand.Deal.{
  set_hole, deal_round, announce_holes, deal_holes, start_of, post_all, first_to_act, open_hand,
}
use showdown.Poker.Hand.Turn.{settle}
use showdown.Poker.Hand.Chips.{worths}
use showdown.Poker.Hand.Inv.{get-found, Dealt, NoBets, Good}
use showdown.Base.{all, true, Bool}
use showdown.Poker.Card.{valid}
use showdown.Poker.Hand.Ids.{ids, known, in_range, length-ids, known-modify, all-get}
use showdown.Poker.Hand.Showdown.{next_of-lt}
use showdown.Poker.Hand.Settles.{Covered, settle-Good}
use showdown.Poker.Hand.Posts.{RoomFor}
use showdown.Poker.Hand.Straddles.{FairStraddle, Opened, post_all-Opened}

-- What the hole cards leave alone.
record SameTable (ps qs : List Player) : Type 0 where
  chips_same : worths qs ≡ worths ps
  live_same : count live qs ≡ count live ps
  size_same : length qs ≡ length ps
  bets_same : (x : ℕ) → Covered x ps → Covered x qs
  known_same : all known (ids ps) ≡ true → all known (ids qs) ≡ true

SameTable-trans : {ps qs rs : List Player} → SameTable ps qs → SameTable qs rs → SameTable ps rs
SameTable-trans s t = record {
  chips_same = t.chips_same ∙ s.chips_same;
  live_same = t.live_same ∙ s.live_same;
  size_same = t.size_same ∙ s.size_same;
  bets_same = λ x c. t.bets_same x (s.bets_same x c);
  known_same = λ h. t.known_same (s.known_same h);
}

set_hole-SameTable :
    (second : Bool) (c : ℕ) (i : ℕ) (ps : List Player)
    → valid c ≡ true
    → SameTable ps (modify i (set_hole second c) ps)
set_hole-SameTable true c i ps v = record {
  chips_same = sum_by-modify worth (set_hole true c) (λ _. refl) i ps;
  live_same = sum_by-modify (λ p. if live p then 1 else 0) (set_hole true c) (λ _. refl) i ps;
  size_same = length-modify (set_hole true c) i ps;
  bets_same = λ x. All-modify (λ p. p.bet ≤ x) (set_hole true c) (λ p b. b) i ps;
  known_same = known-modify (set_hole true c) i ps λ p a. ground (arith, a, v);
}
set_hole-SameTable false c i ps v = record {
  chips_same = sum_by-modify worth (set_hole false c) (λ _. refl) i ps;
  live_same = sum_by-modify (λ p. if live p then 1 else 0) (set_hole false c) (λ _. refl) i ps;
  size_same = length-modify (set_hole false c) i ps;
  bets_same = λ x. All-modify (λ p. p.bet ≤ x) (set_hole false c) (λ p b. b) i ps;
  known_same = known-modify (set_hole false c) i ps λ p a. ground (arith, a, v);
}

SameTable-refl : (ps : List Player) → SameTable ps ps
SameTable-refl ps = record {
  chips_same = refl;
  live_same = refl;
  size_same = refl;
  bets_same = λ x c. c;
  known_same = λ h. h;
}

-- A deck that has the cards deals a round.
deal_round-IsOk :
    (second : Bool) (is : List ℕ) (h : Hand)
    → h.deck_pos + length is ≤ length h.deck
    → all valid h.deck ≡ true
    → (ps : List Player) × (pos : ℕ) × (deal_round second is h
        ≡ ok (record h { players = ps; deck_pos = pos }))
      × (pos ≡ h.deck_pos + length is)
      × SameTable h.players ps
unfolding deal_round draw
deal_round-IsOk second [] h room a =
    (h.players, h.deck_pos, refl, omega arith, SameTable-refl h.players)
deal_round-IsOk second (i ∷ is) h room a =
    let (c, e) = get-found h.deck h.deck_pos (omega (arith, room)) in
    let (ps, pos, f, at, same) =
      deal_round-IsOk second is
        (record h { deck_pos = h.deck_pos + 1; players = modify i (set_hole second c) h.players })
        (omega (arith, room)) a in
    let v : valid c ≡ true = all-get valid h.deck h.deck_pos c a e in
    rw (e, draw, f)
      (
        ps,
        pos,
        refl,
        omega (arith, at),
        SameTable-trans (set_hole-SameTable second c i h.players v) same,
      )

-- The announcements change the number of the events only.
announce_holes-same :
    (is : List ℕ) (h : Hand) (es : List Event)
    → (n : ℕ) × (out : List Event) × (announce_holes is (h, es) ≡ (record h { seq = n }, out))
unfolding announce_holes emit
announce_holes-same [] h es = (h.seq, es, refl)
announce_holes-same (i ∷ is) h es = elim (Option-cases (get_elem? h.players i)) [
  | inl e ↦ let (n, out, f) = announce_holes-same is h es in rw (e, announce_holes) (n, out, f)
  | inr (p, e) ↦
      let (n, out, f) = announce_holes-same is (record h { seq = h.seq + 1 }) _ in
      rw (e, announce_holes) (n, out, f)
]

length-clockwise : (ps : List Player) (i n : ℕ) → length (clockwise ps i n) ≡ n
length-clockwise ps i zero = refl
length-clockwise ps i (suc n) = omega (arith, length-clockwise ps (next ps i) n)

deal_holes-IsOk :
    (button : ℕ) (h : Hand) (es : List Event)
    → h.deck_pos + 2 * length h.players ≤ length h.deck
    → all valid h.deck ≡ true
    → (ps : List Player) × (pos n : ℕ) × (out : List Event) × (deal_holes button (h, es)
        ≡ ok (record h { players = ps; deck_pos = pos; seq = n }, out))
      × (pos ≡ h.deck_pos + 2 * length h.players)
      × SameTable h.players ps
unfolding deal_holes
deal_holes-IsOk button h es room a =
    let round = clockwise h.players (next h.players button) (length h.players) in
    let size : length round ≡ length h.players =
      length-clockwise h.players (next h.players button) (length h.players) in
    let (ps1, pos1, e1, at1, same1) = deal_round-IsOk false round h (omega (arith, room, size)) a in
    let (ps2, pos2, e2, at2, same2) =
      deal_round-IsOk true round (record h { players = ps1; deck_pos = pos1 })
        (omega (arith, room, size, at1)) a in
    let (n, out, e3) = announce_holes-same round (record h { players = ps2; deck_pos = pos2 }) es in
    rw (e1, e2, e3)
      (ps2, pos2, n, out, refl, omega (arith, at1, at2, size), SameTable-trans same1 same2)

first_to_act-lt :
    (button : ℕ) (h : Hand)
    → button < length h.players
    → 0 < length h.players
    → first_to_act button h < length h.players
unfolding first_to_act
first_to_act-lt button h lt some_players = elim (Option-cases h.straddle_seat) [
  | inr (s, e) ↦ rw e (next_of-lt h.players (index_from 0 s h.players) some_players)
  | inl e ↦ rw e (
      if_both (λ i. i < length h.players) (length h.players == 2) {x = button}
        {y = next_of h.players (index_from 0 h.bb_seat h.players)} (λ _. lt)
        λ _. next_of-lt h.players (index_from 0 h.bb_seat h.players) some_players)
]

-- The posted hand is dealt and the first turn is given.
dealt-Good :
    (button : ℕ) (h : Hand) (es : List Event)
    → button < length h.players
    → 2 ≤ length h.players
    → RoomFor (2 * length h.players) h
    → Covered h.current_bet h.players
    → count live h.players ≡ length h.players
    → Returns
        (Good (total_chips h))
        (deal_holes button (h, es) >>= λ run. settle run (first_to_act button run.0) true)
dealt-Good button h es lt two room cov alive =
    let (ps, pos, n, out, e, at, same) =
      deal_holes-IsOk button h es (omega (arith, room.0.enough)) room.0.deck_valid in
    let k : Hand = record h { players = ps; deck_pos = pos; seq = n } in
    let in_k : button < length ps = omega (arith, lt, same.size_same) in
    let as_many : length (ids ps) ≡ length (ids h.players) =
      omega (arith, length-ids ps, length-ids h.players, same.size_same) in
    let deal : Dealt k = record {
      board_full = room.0.board_full;
      board2_full = room.0.board2_full;
      enough = omega (arith, room.0.enough, at);
      board_valid = room.0.board_valid;
      board2_valid = room.0.board2_valid;
      deck_valid = room.0.deck_valid;
      players_known = same.known_same room.0.players_known;
      turn_in = subst (λ m. in_range h.to_act m ≡ true) (sym as_many) room.0.turn_in;
      aggressor_in = subst (λ m. in_range h.aggressor m ≡ true) (sym as_many) room.0.aggressor_in;
    } in
    rw e (
      subst (λ c. Returns (Good c) (settle (k, out) (first_to_act button k) true)) same.chips_same
        (settle-Good k out (first_to_act button k) true room.1 deal
          (same.bets_same h.current_bet cov) (omega (arith, two, alive, same.live_same))
          (first_to_act-lt button k in_k (omega (arith, in_k)))))

-- A table of players with nothing posted yet starts its hand.
pub open_hand-Good :
    (button : ℕ) (h : Hand)
    → button < length h.players
    → 2 ≤ length h.players
    → h.cfg.small_blind ≤ h.cfg.big_blind
    → FairStraddle h.cfg
    → NoBets h.players
    → RoomFor (2 * length h.players) h
    → count live h.players ≡ length h.players
    → Returns (Good (total_chips h)) (open_hand button h)
unfolding open_hand emit
open_hand-Good button h lt two le fair none_bet room alive =
    let told : Hand = record h { seq = h.seq + 1 } in
    let start : List Event = record { seq = h.seq + 1; body = hand_started (start_of h) } ∷ [] in
    let run : Run = post_all button (told, start) in
    let (posted, cov) : Opened told run.0 =
      post_all-Opened button told start lt two le fair none_bet in
    subst (λ c. Returns (Good c) (open_hand button h)) posted.chips_kept
      (dealt-Good button run.0 run.1 (omega (arith, lt, posted.size_kept))
        (omega (arith, two, posted.size_kept))
        (subst (λ m. RoomFor (2 * m) run.0) (sym posted.size_kept)
          (posted.room_kept (2 * length h.players) room))
        cov (omega (arith, alive, posted.live_kept, posted.size_kept)))
