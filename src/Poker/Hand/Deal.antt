-- ===== src/Poker/Hand/Deal.antt =====
-- hand.go: `NewHand`, from the checks to the first turn. The settings are natural numbers, so the
-- refusals of a negative seat and of a negative ante have no case here.
use showdown.Base.{
  ℕ, ◌+◌, ◌-◌, ◌*◌, Bool, true, false, ◌&&◌, ◌||◌, List, [], ◌∷◌, ◌++◌, Option, none, some, ltb,
  leb, ◌==◌, if◌then◌else◌, length, get_elem?, map, min, max, modify, sort_by,
}
use showdown.Base.Outcome.{Outcome, ok, refused, ◌>>=◌}
use showdown.Poker.Card.{Card, variant_deck, variant_deck_size}
use showdown.Poker.Types.{
  Player, Seat, HandConfig, HandStart, BlindKind, small, big, dead, straddle, preflop, betting,
  Error, too_few_players, invalid_blinds, no_shuffle, no_chips, duplicate_seat, no_button,
  deck_too_small, deck_changed, hand_started, ante_posted, blind_posted, hole_cards_dealt,
}
use showdown.Poker.Hand.State.{Hand, Run, emit, by_seat, index_from, next, next_of, clockwise, draw}
use showdown.Poker.Hand.Turn.{settle}
mod Posting
unfoldable pub use Posting.*

-- `cfg.DeadBlinds[seat]`
abbrev pub dead_blind_of : List (ℕ × ℕ) → ℕ → ℕ
dead_blind_of [] seat = 0
dead_blind_of ((s, b) ∷ rest) seat = if s == seat then b else dead_blind_of rest seat

abbrev pub new_player : HandConfig → Seat → Player
new_player cfg s = record {
  seat = s.seat;
  stack = s.stack;
  start_stack = s.stack;
  hole0 = 0;
  hole1 = 0;
  shown0 = false;
  shown1 = false;
  dead_blind = dead_blind_of cfg.dead_blinds s.seat;
  folded = false;
  all_in = false;
  bet = 0;
  committed = 0;
  has_acted = false;
  acted_at_full_level = 0;
  revealed = false;
  mucked = false;
  last_action = none;
  won = 0;
}

abbrev pub is_taken : List Player → ℕ → Bool
is_taken ps seat = elim (by_seat ps seat) [ none ↦ false | some p ↦ true ]

-- The loop over the seats.
unfoldable pub seat_players : HandConfig → List Seat → List Player → Outcome Error (List Player)
seat_players cfg [] ps = ok ps
seat_players cfg (s ∷ ss) ps =
    let rest = seat_players cfg ss (ps ++ new_player cfg s ∷ []) in
    if s.stack == 0
    then refused no_chips
    else if is_taken ps s.seat
    then refused duplicate_seat
    else rest

abbrev pub set_hole : Bool → Card → Player → Player
set_hole false c p = record p { hole0 = c }
set_hole true c p = record p { hole1 = c }

-- One round of hole cards.
unfoldable pub deal_round : Bool → List ℕ → Hand → Outcome Error Hand
unfolding draw
deal_round second [] h = ok h
deal_round second (i ∷ is) h = draw h >>= λ d.
    deal_round second is (record (d.0) { players = modify i (set_hole second d.1) d.0.players })

unfoldable pub announce_holes : List ℕ → Run → Run
unfolding emit
announce_holes [] run = run
announce_holes (i ∷ is) (h, es) = elim (get_elem? h.players i) [
  | none ↦ announce_holes is (h, es)
  | some p ↦ announce_holes is (emit (h, es) (hole_cards_dealt p.seat (p.hole0 ∷ p.hole1 ∷ [])))
]

-- The hand before anything is posted.
unfoldable pub fresh_hand : HandConfig → List Card → List Player → ℕ → Hand
fresh_hand cfg deck ps button = record {
  cfg = cfg;
  players = ps;
  deck = deck;
  deck_pos = 0;
  board = [];
  street = preflop;
  phase = betting;
  runout = false;
  sb_seat = seat_at ps (small_index ps button);
  bb_seat = seat_at ps (next ps (small_index ps button));
  straddle_seat = none;
  run_twice = false;
  board2 = [];
  to_act = none;
  current_bet = 0;
  last_full_bet_level = 0;
  last_raise_size = 0;
  seq = 0;
  results = none;
  final_pots = [];
  aggressor = none;
  show_order = none;
  show_idx = 0;
  show_winner = [];
}

unfoldable pub start_of : Hand → HandStart
start_of h = record {
  button_seat = h.cfg.button_seat;
  sb_seat = h.sb_seat;
  bb_seat = h.bb_seat;
  small_blind = h.cfg.small_blind;
  big_blind = h.cfg.big_blind;
  ante = h.cfg.ante;
  stacks = map (λ p. (p.seat, p.stack)) h.players;
}

-- The first index to act: left of the straddler or of the big blind, or the button heads-up.
unfoldable pub first_to_act : ℕ → Hand → ℕ
first_to_act button h = elim h.straddle_seat [
  | some s ↦ next_of h.players (index_from 0 s h.players)
  | none ↦
      if length h.players == 2 then button else next_of h.players (index_from 0 h.bb_seat h.players)
]

unfoldable pub deal_holes : ℕ → Run → Outcome Error Run
unfolding deal_round announce_holes
deal_holes button (h, es) =
    let round = clockwise h.players (next h.players button) (length h.players) in
    deal_round false round h >>= λ h1.
    deal_round true round h1 >>= λ h2. ok (announce_holes round (h2, es))

unfoldable pub open_hand : ℕ → Hand → Outcome Error Run
unfolding emit start_of post_all deal_holes first_to_act
open_hand button h =
    deal_holes button (post_all button (emit (h, []) (hand_started (start_of h)))) >>= λ run.
    settle run (first_to_act button run.0) true

-- The shuffled deck, if the players' cards and a board fit and the shuffle kept its size.
unfoldable pub shuffled_deck : HandConfig → ℕ → (List Card → List Card) → Outcome Error (List Card)
shuffled_deck cfg n shuffle =
    let deck = variant_deck cfg.variant in
    if ltb (length deck) (n * 2 + 5)
    then refused deck_too_small
    else if length (shuffle deck) == variant_deck_size cfg.variant
    then ok (shuffle deck)
    else refused deck_changed

abbrev pub button_index : HandConfig → List Player → Outcome Error ℕ
button_index cfg ps = elim (index_from 0 cfg.button_seat ps) [
  | none ↦ refused no_button
  | some i ↦ ok i
]

unfoldable pub start_hand : HandConfig → List Seat → (List Card → List Card) → Outcome Error Run
unfolding seat_players shuffled_deck fresh_hand open_hand
start_hand cfg seats shuffle = seat_players cfg seats [] >>= λ ps.
    let sorted = sort_by (λ (p : Player). p.seat) ps in
    button_index cfg sorted >>= λ button. shuffled_deck cfg (length seats) shuffle >>= λ deck.
    open_hand button (fresh_hand cfg deck sorted button)

unfoldable pub check_start :
    Bool → Bool → Option (List Card → List Card) → HandConfig → List Seat → Outcome Error Run
unfolding start_hand
check_start true blinds shuffle cfg seats = refused too_few_players
check_start false true shuffle cfg seats = refused invalid_blinds
check_start false false none cfg seats = refused no_shuffle
check_start false false (some shuffle) cfg seats = start_hand cfg seats shuffle

-- `NewHand`
unfoldable pub new_hand :
    HandConfig → List Seat → Option (List Card → List Card) → Outcome Error Run
unfolding check_start
new_hand cfg seats shuffle =
    check_start (ltb (length seats) 2) (ltb cfg.small_blind 1 || ltb cfg.big_blind cfg.small_blind)
      shuffle cfg seats
