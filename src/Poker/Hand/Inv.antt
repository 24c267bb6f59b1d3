-- ===== src/Poker/Hand/Inv.antt =====
-- What holds of a hand between two calls.
use showdown.Base.{
  ℕ, ◌+◌, ◌-◌, ◌*◌, ◌≤◌, ◌<◌, ◌≡◌, refl, Bool, true, false, not, List, [], ◌∷◌, some, arith,
  if◌then◌else◌, length, map, any, All, All-map, all, zero, suc, sym, Option, get_elem?,
}
use mathlib.Core.Path.{subst}
use showdown.Poker.Card.{Card, valid}
use showdown.Poker.Pots.{build_pots}
use showdown.Poker.Pots.Eligible.{is_live, IsContended, build_pots-IsContended}
use showdown.Poker.Types.{
  Street, preflop, flop, turn, river, Phase, betting, deal_pending, showing, result, Player,
  Results,
}
use showdown.Poker.Hand.State.{Hand, Run, live, count, pot_player, pots, total_chips}
use showdown.Poker.Hand.Turn.{is_river}
use showdown.Poker.Hand.Ids.{Identity, ids, known, in_range, length-ids}
use showdown.Poker.Hand.Chips.{seated}
use showdown.Poker.Hand.Paying.{Winnable, Seated}

abbrev pub board_size : Street → ℕ
board_size preflop = 0
board_size flop = 3
board_size turn = 4
board_size river = 5

-- The cards that the streets to come still take from the deck, for one board or for two.
abbrev pub to_come : Street → Bool → ℕ
to_come s twice = (5 - board_size s) * (if twice then 2 else 1)

-- The boards have the cards of the street, and the deck has the cards that are still to come; all
-- cards are cards of the deck, and the indices of players are in range.
pub record Deal (street : Street) (board board2 : List Card) (twice : Bool) (deck : List Card)
    (pos : ℕ) (players : List Identity) (to_act aggressor : Option ℕ) : Type 0 where
  pub board_full : length board ≡ board_size street
  pub board2_full : twice ≡ true → length board2 ≡ board_size street
  pub enough : pos + to_come street twice ≤ length deck
  pub board_valid : all valid board ≡ true
  pub board2_valid : all valid board2 ≡ true
  pub deck_valid : all valid deck ≡ true
  pub players_known : all known players ≡ true
  pub turn_in : in_range to_act (length players) ≡ true
  pub aggressor_in : in_range aggressor (length players) ≡ true

abbrev pub Dealt : Hand → Type 0
Dealt h =
    Deal h.street h.board h.board2 h.run_twice h.deck h.deck_pos (ids h.players) h.to_act
      h.aggressor

-- The deal with other players of the same seats and cards, and with other indices.
module _ {s : Street} {b b2 : List Card} {t : Bool} {d : List Card} {n : ℕ} {x a : Option ℕ} where
  pub same_ids :
      {is js : List Identity} → js ≡ is → Deal s b b2 t d n is x a → Deal s b b2 t d n js x a
  same_ids e deal = subst (λ ks. Deal s b b2 t d n ks x a) (sym e) deal

  pub set_turn :
      {is : List Identity} (y : Option ℕ)
      → in_range y (length is) ≡ true
      → Deal s b b2 t d n is x a
      → Deal s b b2 t d n is y a
  set_turn y h deal = record {
    board_full = deal.board_full;
    board2_full = deal.board2_full;
    enough = deal.enough;
    board_valid = deal.board_valid;
    board2_valid = deal.board2_valid;
    deck_valid = deal.deck_valid;
    players_known = deal.players_known;
    turn_in = h;
    aggressor_in = deal.aggressor_in;
  }

  pub set_aggressor :
      {is : List Identity} (y : Option ℕ)
      → in_range y (length is) ≡ true
      → Deal s b b2 t d n is x a
      → Deal s b b2 t d n is x y
  set_aggressor y h deal = record {
    board_full = deal.board_full;
    board2_full = deal.board2_full;
    enough = deal.enough;
    board_valid = deal.board_valid;
    board2_valid = deal.board2_valid;
    deck_valid = deal.deck_valid;
    players_known = deal.players_known;
    turn_in = deal.turn_in;
    aggressor_in = h;
  }

pub get-found :
    {A : Type 0} (xs : List A) (i : ℕ) → i < length xs → (x : A) × (get_elem? xs i ≡ some x)
get-found [] i h = absurd (omega arith)
get-found (x ∷ xs) zero h = (x, refl)
get-found (x ∷ xs) (suc i) h = get-found xs i (omega arith)

-- The aggressor is a player of the hand.
pub get_in-range :
    (h : Hand) (i : ℕ)
    → Dealt h
    → h.aggressor ≡ some i
    → (p : Player) × (get_elem? h.players i ≡ some p)
get_in-range h i d e =
    let here : in_range (some i) (length (ids h.players)) ≡ true =
      subst (λ o. in_range o (length (ids h.players)) ≡ true) e d.aggressor_in in
    get-found h.players i (ground (arith, here, length-ids h.players))

-- The player to act is a player of the hand.
pub get_turn-range :
    (h : Hand) (i : ℕ)
    → Dealt h
    → h.to_act ≡ some i
    → (p : Player) × (get_elem? h.players i ≡ some p)
get_turn-range h i d e =
    let here : in_range (some i) (length (ids h.players)) ≡ true =
      subst (λ o. in_range o (length (ids h.players)) ≡ true) e d.turn_in in
    get-found h.players i (ground (arith, here, length-ids h.players))

abbrev pub NoBets : List Player → Type 0
NoBets ps = All (λ p. p.bet ≡ 0) ps

-- While players bet, nobody is above the current bet and at least two are in the hand; in the
-- other phases the bets are collected; after the hand all chips are back in the stacks.
abbrev pub PhaseInv : Phase → Hand → Type 0
PhaseInv betting h = All (λ p. p.bet ≤ h.current_bet) h.players × (2 ≤ count live h.players)
PhaseInv deal_pending h =
    NoBets h.players × (2 ≤ count live h.players) × (is_river h.street ≡ false)
PhaseInv showing h =
    NoBets h.players
    × (2 ≤ count live h.players)
    × (is_river h.street ≡ true)
    × ((order : List ℕ) × (h.show_order ≡ some order)
        × (h.show_idx < length order)
        × Seated h.players order)
PhaseInv result h =
    NoBets h.players
    × All (λ p. p.committed ≡ 0) h.players
    × ((res : Results) × (h.results ≡ some res))

pub record Inv (h : Hand) : Type 0 where
  pub dealt : Dealt h
  pub by_phase : PhaseInv h.phase h

-- A valid hand with a given number of chips.
abbrev pub Good : ℕ → Run → Type 0
Good chips r = Inv r.0 × (total_chips r.0 ≡ chips)

pub board-le : (h : Hand) → Dealt h → length h.board ≤ 5
board-le h d = omega (arith, d.board_full, size_le h.street)
  where
    size_le : (s : Street) → board_size s ≤ 5
    size_le preflop = omega arith
    size_le flop = omega arith
    size_le turn = omega arith
    size_le river = omega arith

pub river_size : (s : Street) → is_river s ≡ true → board_size s ≡ 5
river_size preflop h = cc
river_size flop h = cc
river_size turn h = cc
river_size river h = refl

live_pot_players :
    (ps : List Player) → 1 ≤ count live ps → any (λ p. not p.folded) (map pot_player ps) ≡ true
live_pot_players [] h = absurd (omega arith)
live_pot_players (p ∷ ps) h = ground (arith, live_pot_players ps)

is_live-seated :
    (ps : List Player) (s : ℕ) → is_live (map pot_player ps) s ≡ true → seated ps s ≡ true
is_live-seated [] s h = cc
is_live-seated (p ∷ ps) s h = ground (arith, is_live-seated ps s)

-- As long as somebody is in the hand every pot can be won by a player of the hand.
pub pots-Winnable : (ps : List Player) → 1 ≤ count live ps → All (Winnable ps) (pots ps)
unfolding pots
pots-Winnable ps h =
    All-map (IsContended (map pot_player ps)) (Winnable ps) (build_pots (map pot_player ps))
      (λ pot c. (c.0, All-map _ _ pot.eligible (is_live-seated ps) c.1))
      (build_pots-IsContended (map pot_player ps) (live_pot_players ps h))
