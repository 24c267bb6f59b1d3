-- ===== src/Poker/Hand/Views.antt =====
-- hand.go: what the rest of the program reads of a hand: `State`, `Stack`, `Pots`, `Rank`,
-- `HandRanks`, `BestCards`, `RemainingBoard`, `Shown`, `MadeHand` and `ShownBest`.
use showdown.Base.{
  ℕ, zero, suc, ◌+◌, ◌-◌, Bool, true, false, ◌&&◌, ◌||◌, List, [], ◌∷◌, Option, none, some, ltb,
  leb, ◌==◌, if◌then◌else◌, length, map, get_elem?, get_or,
}
use showdown.Base.Outcome.{Outcome, ok, ◌>>=◌}
use showdown.Base.Text.{Text}
use showdown.Poker.Card.{Card, Rank, rank, ace}
use showdown.Poker.Eval.{
  Category, HandValue, compare_values, significant, one_pair, high_card, straight_flush,
}
use showdown.Poker.Pots.{Pot}
use showdown.Poker.Types.{Player, Action, Error}
use showdown.Poker.Hand.State.{Hand, is_betting, is_result, by_seat, pots}
use showdown.Poker.Hand.Show.{evaluate_with, description, shown_best, is_positive}

-- `InHand` is always true here: a seat that is not in the hand has no state.
pub record SeatState : Type 0 where
  pub seat : ℕ
  pub stack : ℕ
  pub folded : Bool
  pub all_in : Bool
  pub bet_this_street : ℕ
  pub total_bet : ℕ
  pub revealed : Bool
  pub mucked : Bool
  pub hole_cards : List Card
  pub shown : Bool × Bool
  pub last_action : Option Action

-- `Shown` for a player of the hand.
abbrev pub shown_of : Player → Bool × Bool
shown_of p = if p.revealed then (true, true) else (p.shown0, p.shown1)

-- `h.State`
unfoldable pub state : Hand → ℕ → Option SeatState
state h seat = elim (by_seat h.players seat) [
  | none ↦ none
  | some p ↦ some (record {
    seat = p.seat;
    stack = p.stack;
    folded = p.folded;
    all_in = p.all_in;
    bet_this_street = p.bet;
    total_bet = p.committed + p.bet;
    revealed = p.revealed;
    mucked = p.mucked;
    hole_cards = p.hole0 ∷ p.hole1 ∷ [];
    shown = shown_of p;
    last_action = p.last_action;
  })
]

-- `h.Stack`
unfoldable pub stack_of : Hand → ℕ → Option ℕ
stack_of h seat = elim (by_seat h.players seat) [ none ↦ none | some p ↦ some p.stack ]

-- `h.Shown`
unfoldable pub shown : Hand → ℕ → Bool × Bool
shown h seat = elim (by_seat h.players seat) [ none ↦ (false, false) | some p ↦ shown_of p ]

-- `h.Seats`
abbrev pub seats : Hand → List ℕ
seats h = map (λ p. p.seat) h.players

-- `h.ToAct`. The index of the player to act is in range in every valid hand (`Inv`); out of range the
-- source panics.
unfoldable pub seat_to_act : Hand → Option ℕ
seat_to_act h = elim h.to_act [
  | none ↦ none
  | some i ↦ elim (get_elem? h.players i) [
    | none ↦ none
    | some p ↦ if is_betting h.phase then some p.seat else none
  ]
]

-- `h.Pots`
unfoldable pub current_pots : Hand → List Pot
current_pots h = let built = pots h.players in if is_result h.phase then h.final_pots else built

-- `IsRoyalFlush`
unfoldable pub is_royal_flush : HandValue → Bool
is_royal_flush v = elim v.category [ straight_flush ↦ rank (get_or v.best 0 0) == ace | _ ↦ false ]

-- `h.Rank`: before the flop the two cards alone.
unfoldable pub hand_rank : Hand → ℕ → Outcome Error (Option (Category × Bool))
unfolding is_royal_flush
hand_rank h seat = elim (by_seat h.players seat) [
  | none ↦ ok none
  | some p ↦
      let value = evaluate_with h.board p in
      if ltb (length h.board) 3
      then ok (some (if rank p.hole0 == rank p.hole1 then one_pair else high_card, false))
      else (value >>= λ v. ok (some (v.category, is_royal_flush v)))
]

-- The ranks of the two hole cards, high first, and a pair once.
abbrev hole_ranks : Card → Card → List Rank
hole_ranks a b =
    if rank a == rank b
    then rank a ∷ []
    else if ltb (rank a) (rank b)
    then rank b ∷ rank a ∷ []
    else rank a ∷ rank b ∷ []

-- `h.HandRanks`
unfoldable pub hand_ranks : Hand → ℕ → Outcome Error (List Rank)
hand_ranks h seat = elim (by_seat h.players seat) [
  | none ↦ ok []
  | some p ↦
      let value = evaluate_with h.board p in
      if ltb (length h.board) 3
      then ok (hole_ranks p.hole0 p.hole1)
      else (value >>= λ v. ok (significant v))
]

-- The hole cards that count before the flop.
abbrev best_hole : Card → Card → List Card
best_hole a b =
    if rank a == rank b then a ∷ b ∷ [] else if ltb (rank b) (rank a) then a ∷ [] else b ∷ []

-- `h.BestCards`
unfoldable pub best_cards : Hand → ℕ → Outcome Error (List Card)
best_cards h seat = elim (by_seat h.players seat) [
  | none ↦ ok []
  | some p ↦
      let value = evaluate_with h.board p in
      if ltb (length h.board) 3 then ok (best_hole p.hole0 p.hole1) else (value >>= λ v. ok v.best)
]

-- `h.Description`; the empty text for a seat that is not in the hand.
unfoldable pub seat_description : Hand → ℕ → Outcome Error Text
seat_description h seat = elim (by_seat h.players seat) [
  | none ↦ ok []
  | some p ↦ description h.board p
]

-- `h.ShownBest`
unfoldable pub seat_shown_best : Hand → ℕ → Outcome Error (List Card)
seat_shown_best h seat = elim (by_seat h.players seat) [
  | none ↦ ok []
  | some p ↦ shown_best h.board p
]

-- `xs[i:i+n]`, for an `i + n` in range.
abbrev pub cut : {A : Type 0} → ℕ → ℕ → List A → List A
cut i n [] = []
cut zero zero (x ∷ xs) = []
cut zero (suc n) (x ∷ xs) = x ∷ cut zero n xs
cut (suc i) n (x ∷ xs) = cut i n xs

-- `h.RemainingBoard`; the nil slice is the empty list.
unfoldable pub remaining_board : Hand → List Card
remaining_board h =
    let missing = 5 - length h.board in
    if missing == 0 || ltb (length h.deck) (h.deck_pos + missing)
    then []
    else cut h.deck_pos missing h.deck

-- The better of the values on the two boards.
abbrev pub better : HandValue → HandValue → HandValue
better v w = if is_positive (compare_values w v) then w else v

-- `h.MadeHand` for a player who can have one.
unfoldable pub made_of : Hand → Player → Outcome Error (Option HandValue)
made_of h p =
    let second = evaluate_with h.board2 p in
    evaluate_with h.board p >>= λ v.
    if h.run_twice && leb 3 (length h.board2)
    then (second >>= λ w. ok (some (better v w)))
    else ok (some v)

-- `h.MadeHand`
unfoldable pub made_hand : Hand → ℕ → Outcome Error (Option HandValue)
unfolding made_of
made_hand h seat = elim (by_seat h.players seat) [
  | none ↦ ok none
  | some p ↦ let made = made_of h p in if p.folded || ltb (length h.board) 3 then ok none else made
]
