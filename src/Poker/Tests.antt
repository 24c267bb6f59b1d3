-- ===== src/Poker/Tests.antt =====
-- Concrete hands, and the theorems on hands where their conditions hold.
mod Cards
use showdown.Base.{
  insertion_sort, ℕ, ◌++◌, ◌/◌, get_elem?, ◌+◌, ◌<◌, ◌≡◌, ◌≢◌, refl, inl, Bool, true, false, ◌&&◌,
  List, [], ◌∷◌, none, some, arith, length, ◌==◌, if◌then◌else◌, leb, ltb, All, Ascending,
}
use showdown.Base.Int.{pos}
use showdown.Base.Text.{text}
use showdown.Base.Outcome.{ok, refused, panic, Returns, Ensures}
use showdown.Poker.Card.{
  Card, holdem, royal, to_text, parse_card, must_parse_cards, variant_deck, variant_deck_size,
  lowest_rank, rank, deck_size, secure_shuffle,
}
use showdown.Poker.Card.Text.{parse_card-to_text, to_text-parse_card, must_parse_cards-spell, spell}
use showdown.Poker.Card.Decks.{occurrences, variant_deck_complete, secure_shuffle-keeps}
use showdown.Poker.Eval.{HandValue, evaluate, evaluate5, straight_flush, full_house}
use showdown.Poker.Eval.Best.{evaluate-best, choose, top_rank}
use showdown.Poker.Pots.{PotPlayer, build_pots, contributed, amounts, levels}
use showdown.Poker.Pots.Levels.{levels-Ascending}
use showdown.Poker.Pots.Conserve.{build_pots-conserves}
use showdown.Poker.Pots.Eligible.{IsContended, build_pots-IsContended}
use showdown.Poker.Types.{
  Player, Event, Seat, HandConfig, reveal_in_order, check, call, raise, all_in, fold, preflop,
  river, betting, deal_pending, showing, result,
}
use showdown.Poker.Hand.State.{Hand, Run, live, total_chips}
use showdown.Poker.Hand.Show.{showdown_order, mem}
use showdown.Poker.Hand.Order.{live_at}
use showdown.Poker.Hand.Award.{award_pots}
use showdown.Poker.Hand.Turn.{apply, timeout}
use showdown.Poker.Hand.Round.{round_complete, next_actor, needs_to_act}
use showdown.Poker.Hand.Calls.{advance, play_on, run_it_twice, reveal_next, show_cards, forfeit}
use showdown.Poker.Hand.Inv.{Inv, Good}
use showdown.Poker.Hand.Acts.{apply-Good, timeout-Good}
use showdown.Poker.Hand.Leaving.{forfeit-Good}
use showdown.Poker.Hand.Streets.{StreetDealt, advance-StreetDealt, run_it_twice-Good}
use showdown.Poker.Hand.Reveals.{reveal_next-Good}
use showdown.Poker.Hand.Late.{show_cards-Good}
use showdown.Poker.Hand.Runs.{Call, agree_twice, after, here, step, Reaches-Safe, new_hand-Safe}
use showdown.Poker.Hand.Showdown.{showdown_order-IsOk}
use showdown.Poker.Hand.Awards.{award_pots-Good}
use showdown.Poker.Hand.Moves.{perform, options_of}
use showdown.Poker.Hand.Offers.{accepted, doing, offers, perform-offers}
use showdown.Poker.Hand.Deal.{new_hand}
use showdown.Poker.Hand.Straddles.{FairStraddle}
use showdown.Poker.Hand.Starts.{brought, new_hand-Good}
use showdown.Poker.Hand.Views.{made_hand, remaining_board}
use showdown.Poker.Hand.Made.{AtLeast, made_hand-AtLeast, remaining_board-completes}
use showdown.Poker.Hand.Settles.{next_actor-found}

abbrev player : (seat stack bet committed : ℕ) (folded : Bool) (first second : Card) → Player
player seat stack bet committed folded first second = record {
  seat = seat;
  stack = stack;
  start_stack = stack + bet + committed;
  hole0 = first;
  hole1 = second;
  shown0 = false;
  shown1 = false;
  dead_blind = 0;
  folded = folded;
  all_in = stack == 0;
  bet = bet;
  committed = committed;
  has_acted = false;
  acted_at_full_level = 0;
  revealed = false;
  mucked = false;
  last_action = none;
  won = 0;
}

abbrev config : HandConfig
config = record {
  small_blind = 5;
  big_blind = 10;
  ante = 0;
  button_seat = 0;
  reveal = reveal_in_order;
  dead_blinds = [];
  straddle_seat = none;
  straddle_amount = 0;
  variant = holdem;
}

abbrev cards : List Card
cards = 48 ∷ 1 ∷ 22 ∷ 44 ∷ 5 ∷ 26 ∷ 40 ∷ 9 ∷ 30 ∷ 36 ∷ 13 ∷ 34 ∷ 33 ∷ 2 ∷ 50 ∷ 51 ∷ []

-- Three players before the flop; the big blind is posted and the button is to act.
abbrev betting_hand : Hand
betting_hand = record {
  cfg = config;
  players =
      player 0 100 0 0 false 48 44 ∷ player 2 65 5 0 false 1 5 ∷ player 4 40 10 0 false 22 26 ∷ [];
  deck = cards;
  deck_pos = 6;
  board = [];
  street = preflop;
  phase = betting;
  runout = false;
  sb_seat = 2;
  bb_seat = 4;
  straddle_seat = none;
  run_twice = false;
  board2 = [];
  to_act = some 0;
  current_bet = 10;
  last_full_bet_level = 10;
  last_raise_size = 10;
  seq = 5;
  results = none;
  final_pots = [];
  aggressor = none;
  show_order = none;
  show_idx = 0;
  show_winner = [];
}

betting_hand-Inv : Inv betting_hand
betting_hand-Inv = record {
  dealt = record {
    board_full = refl;
    board2_full = λ e. cc;
    enough = omega arith;
    board_valid = refl;
    board2_valid = refl;
    deck_valid = refl;
    players_known = refl;
    turn_in = refl;
    aggressor_in = refl;
  };
  by_phase = ((omega arith, (omega arith, (omega arith, tt))), omega arith);
}

-- All in before the flop: the board is still to come.
abbrev all_in_players : List Player
all_in_players = player 0 60 0 40 false 48 44 ∷ player 2 0 0 40 false 1 5 ∷ []

abbrev pending_hand : Hand
pending_hand = record betting_hand {
  players = all_in_players;
  phase = deal_pending;
  runout = true;
  to_act = none;
  current_bet = 0;
}

pending_hand-Inv : Inv pending_hand
pending_hand-Inv = record {
  dealt = record {
    board_full = refl;
    board2_full = λ e. cc;
    enough = omega arith;
    board_valid = refl;
    board2_valid = refl;
    deck_valid = refl;
    players_known = refl;
    turn_in = refl;
    aggressor_in = refl;
  };
  by_phase = ((refl, (refl, tt)), omega arith, refl);
}

-- The river is dealt and the first player is to show.
abbrev showing_hand : Hand
showing_hand = record pending_hand {
  board = 40 ∷ 9 ∷ 30 ∷ 36 ∷ 13 ∷ [];
  deck_pos = 11;
  street = river;
  phase = showing;
  show_order = some (2 ∷ 0 ∷ []);
  show_winner = 0 ∷ [];
}

showing_hand-Inv : Inv showing_hand
showing_hand-Inv = record {
  dealt = record {
    board_full = refl;
    board2_full = λ e. cc;
    enough = omega arith;
    board_valid = refl;
    board2_valid = refl;
    deck_valid = refl;
    players_known = refl;
    turn_in = refl;
    aggressor_in = refl;
  };
  by_phase =
      ((refl, (refl, tt)), omega arith, refl, (2 ∷ 0 ∷ [], refl, omega arith, (refl, (refl, tt))));
}

-- The hand is over and nobody has shown.
abbrev result_hand : Hand
result_hand = record showing_hand {
  players = player 0 140 0 0 false 48 44 ∷ player 2 0 0 0 false 1 5 ∷ [];
  phase = result;
  results = some (record { pots = []; seats = [] });
}

result_hand-Inv : Inv result_hand
result_hand-Inv = record {
  dealt = record {
    board_full = refl;
    board2_full = λ e. cc;
    enough = omega arith;
    board_valid = refl;
    board2_valid = refl;
    deck_valid = refl;
    players_known = refl;
    turn_in = refl;
    aggressor_in = refl;
  };
  by_phase = ((refl, (refl, tt)), (refl, (refl, tt)), (_, refl));
}

apply-Good_example :
    Ensures
      (Good (total_chips betting_hand))
      (apply betting_hand 0 (record { kind = fold; amount = pos 0 }))
apply-Good_example =
    apply-Good betting_hand 0 (record { kind = fold; amount = pos 0 }) betting_hand-Inv

timeout-Good_example : Returns (Good (total_chips betting_hand)) (timeout betting_hand 0)
timeout-Good_example = timeout-Good betting_hand 0 betting_hand-Inv

forfeit-Good_example : Returns (Good (total_chips betting_hand)) (forfeit betting_hand 4)
forfeit-Good_example = forfeit-Good betting_hand 4 betting_hand-Inv

run_it_twice-Good_example :
    Ensures (λ k. Inv k × (total_chips k ≡ total_chips pending_hand)) (run_it_twice pending_hand)
run_it_twice-Good_example = run_it_twice-Good pending_hand pending_hand-Inv

reveal_next-Good_example : Ensures (Good (total_chips showing_hand)) (reveal_next showing_hand)
reveal_next-Good_example = reveal_next-Good showing_hand showing_hand-Inv

show_cards-Good_example :
    Ensures (Good (total_chips result_hand)) (show_cards result_hand 0 true true)
show_cards-Good_example = show_cards-Good result_hand 0 true true result_hand-Inv

abbrev twice_hand : Hand
twice_hand = record pending_hand { run_twice = true; board2 = [] }

twice_agreed : after pending_hand agree_twice ≡ ok twice_hand
unfolding after run_it_twice
twice_agreed = refl

-- The flop of a hand that is run twice.
advance-StreetDealt_example :
    (k : Hand) × (es : List Event) × (advance twice_hand ≡ play_on (k, es))
    × StreetDealt twice_hand k
    × Returns (Good (total_chips twice_hand)) (advance twice_hand)
advance-StreetDealt_example =
    advance-StreetDealt twice_hand
      (Reaches-Safe pending_hand twice_hand pending_hand-Inv (step agree_twice here twice_agreed)).0
      refl

Reaches-Safe_example :
    Inv twice_hand
    × (total_chips twice_hand ≡ total_chips pending_hand)
    × ((c : Call) → after twice_hand c ≢ panic)
Reaches-Safe_example =
    Reaches-Safe pending_hand twice_hand pending_hand-Inv (step agree_twice here twice_agreed)

showdown_order-IsOk_example :
    (order : List ℕ) × (showdown_order showing_hand ≡ ok order)
    × All (λ s. live_at showing_hand.players s ≡ true) order
    × ((j : ℕ) (p : Player)
        → get_elem? showing_hand.players j ≡ some p
        → live p ≡ true
        → mem p.seat order ≡ true)
showdown_order-IsOk_example = showdown_order-IsOk showing_hand showing_hand-Inv.dealt (omega arith)

award_pots-Good_example : Returns (Good (total_chips showing_hand)) (award_pots (showing_hand, []))
award_pots-Good_example =
    award_pots-Good showing_hand [] showing_hand-Inv.dealt refl (refl, (refl, tt)) (omega arith)

betting_open : round_complete betting_hand ≡ false
unfolding round_complete
betting_open = refl

next_actor-found_example :
    (i : ℕ) × (next_actor betting_hand 0 true ≡ some i)
    × ((p : Player) × (get_elem? betting_hand.players i ≡ some p)
        × (needs_to_act betting_hand.current_bet p ≡ true))
next_actor-found_example =
    next_actor-found betting_hand 0 true (omega arith)
      (omega arith, (omega arith, (omega arith, tt))) betting_open

made_hand-AtLeast_example :
    (v : HandValue) × (made_hand showing_hand 0 ≡ ok (some v))
    × AtLeast v showing_hand.board (player 0 60 0 40 false 48 44)
    × (showing_hand.run_twice ≡ true → AtLeast v showing_hand.board2 (player 0 60 0 40 false 48 44))
made_hand-AtLeast_example =
    made_hand-AtLeast showing_hand 0 (player 0 60 0 40 false 48 44) showing_hand-Inv.dealt
      (omega arith) refl refl

remaining_board-completes_example :
    (length (pending_hand.board ++ remaining_board pending_hand) ≡ 5)
    × ((i : ℕ)
        → i < length (remaining_board pending_hand)
        → get_elem? (remaining_board pending_hand) i
          ≡ get_elem? pending_hand.deck (pending_hand.deck_pos + i))
remaining_board-completes_example = remaining_board-completes pending_hand pending_hand-Inv.dealt

abbrev two_seats : List Seat
two_seats = record { seat = 3; stack = 200 } ∷ record { seat = 0; stack = 90 } ∷ []

no_straddle : FairStraddle config
no_straddle = inl refl

new_hand-Good_example :
    Ensures (Good (brought two_seats)) (new_hand config two_seats (some (λ deck. deck)))
new_hand-Good_example =
    new_hand-Good config two_seats (some (λ deck. deck)) no_straddle refl λ cs h. h

abbrev opened : Run
opened = elim (new_hand config two_seats (some (λ deck. deck))) [
  | ok r ↦ r
  | refused e ↦ (betting_hand, [])
  | panic ↦ (betting_hand, [])
]

opened_ok : new_hand config two_seats (some (λ deck. deck)) ≡ ok opened
unfolding new_hand insertion_sort variant_deck variant_deck_size showdown.Poker.Hand.Turn.settle
    round_complete next_actor
opened_ok = refl

new_hand-Safe_example :
    Inv opened.0
    × (total_chips opened.0 ≡ brought two_seats)
    × ((c : Call) → after opened.0 c ≢ panic)
new_hand-Safe_example =
    new_hand-Safe config two_seats (some (λ deck. deck)) opened opened.0 no_straddle refl
      (λ cs h. h) opened_ok here

-- The button before the flop.
abbrev button_player : Player
button_player = player 0 100 0 0 false 48 44

perform-offers_example :
    (accepted (perform betting_hand 0 button_player (doing check 0))
      ≡ (options_of betting_hand button_player).check)
    × (accepted (perform betting_hand 0 button_player (doing call 0))
        ≡ ltb 0 (options_of betting_hand button_player).call)
    × (accepted (perform betting_hand 0 button_player (doing all_in 0))
        ≡ ltb 0 (options_of betting_hand button_player).all_in)
    × ((amount : ℕ)
        → accepted (perform betting_hand 0 button_player (doing raise amount))
          ≡ offers betting_hand (options_of betting_hand button_player) amount)
perform-offers_example =
    perform-offers betting_hand 0 button_player (omega arith) (omega arith) (omega arith)
