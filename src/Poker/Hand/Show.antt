-- ===== src/Poker/Hand/Show.antt =====
-- hand.go: the hands that are shown, the winners of the pots and the order of the showdown.
use showdown.Base.{
  ℕ, zero, suc, ◌+◌, ◌-◌, ◌^◌, Bool, true, false, not, ◌&&◌, ◌||◌, List, [], ◌∷◌, ◌++◌, Option,
  none, some, ltb, ◌==◌, if◌then◌else◌, length, get_elem?, filter, map, any, sort_by,
}
use showdown.Base.Int.{ℤ, pos, negsuc}
use showdown.Base.Outcome.{Outcome, ok, panic, ◌>>=◌, traverse}
use showdown.Base.Text.{Text}
use showdown.Poker.Card.{Card, valid}
use showdown.Poker.Eval.{HandValue, evaluate, no_value, compare_values}
use showdown.Poker.Pots.{Pot}
use showdown.Poker.Words.{describe, describe_hole}
use showdown.Poker.Types.{
  Player, Reveal, hands_revealed, Error, RevealPolicy, reveal_all, reveal_winners_only,
  reveal_in_order,
}
use showdown.Poker.Hand.State.{
  Hand, Run, emit, by_seat, index_from, next_of, clockwise, scan, live, pots,
}

-- `Evaluate(append([]Card{p.hole[0], p.hole[1]}, board...))`
unfoldable pub evaluate_with : List Card → Player → Outcome Error HandValue
evaluate_with board p = elim (evaluate (p.hole0 ∷ p.hole1 ∷ board)) [ none ↦ panic | some v ↦ ok v ]

-- `h.Description` for a player of the hand; the names of ranks are indexed by the hole cards.
unfoldable pub description : List Card → Player → Outcome Error Text
description board p =
    let value = evaluate_with board p in
    if ltb (length board) 3
    then (if valid p.hole0 && valid p.hole1 then ok (describe_hole p.hole0 p.hole1) else panic)
    else (value >>= λ v. ok (describe v))

-- `h.shownBest`
unfoldable pub shown_best : List Card → Player → Outcome Error (List Card)
shown_best board p =
    let value = evaluate_with board p in
    if ltb (length board) 3 then ok (p.hole0 ∷ p.hole1 ∷ []) else (value >>= λ v. ok v.best)

-- `h.reveal`
unfoldable pub reveal : List Card → Player → Outcome Error Reveal
reveal board p = do
  words ← description board p
  best ← shown_best board p
  ok (record {
    seat = p.seat;
    cards = p.hole0 ∷ p.hole1 ∷ [];
    description = words;
    best = best;
    shown0 = true;
    shown1 = true;
  })

-- `p.revealed = true` for the players that a test picks.
abbrev pub mark_revealed : (Player → Bool) → List Player → List Player
mark_revealed t = map (λ p. if t p then record p { revealed = true } else p)

-- The players that a loop reveals, all in one event, and no event for none.
unfoldable pub reveal_where : (Player → Bool) → Run → Outcome Error Run
unfolding emit
reveal_where t (h, es) = do
  reveals ← traverse (reveal h.board) (filter t h.players)
  ok (emit_reveals reveals)
  where
    marked : Hand
    marked = record h { players = mark_revealed t h.players }

    emit_reveals : List Reveal → Run
    emit_reveals [] = (marked, es)
    emit_reveals (r ∷ rs) = emit (marked, es) (hands_revealed (r ∷ rs))

-- `h.revealAll`
abbrev pub to_reveal : Player → Bool
to_reveal p = not p.folded && not p.revealed

unfoldable pub reveal_everyone : Run → Outcome Error Run
unfolding reveal_where
reveal_everyone = reveal_where to_reveal

-- The map of values that `potWinnersOn` builds.
abbrev pub Values : Type 0
Values = List (ℕ × HandValue)

unfoldable pub values_on : List Player → List Card → Outcome Error Values
values_on ps board = traverse (λ p. evaluate_with board p >>= λ v. ok (p.seat, v)) (filter live ps)

-- A missing key gives the zero value.
abbrev pub value_of_seat : Values → ℕ → HandValue
value_of_seat [] seat = no_value
value_of_seat ((s, v) ∷ vs) seat = if s == seat then v else value_of_seat vs seat

abbrev pub is_positive : ℤ → Bool
is_positive (pos zero) = false
is_positive (pos (suc n)) = true
is_positive (negsuc n) = false

abbrev pub is_zero : ℤ → Bool
is_zero (pos zero) = true
is_zero (pos (suc n)) = false
is_zero (negsuc n) = false

abbrev pub is_empty : List ℕ → Bool
is_empty [] = true
is_empty (x ∷ xs) = false

-- The loop over the eligible seats of a pot: the best value so far and who has it.
unfoldable pub pick_winners : Values → List ℕ → HandValue → List ℕ → List ℕ
pick_winners vs [] best winners = winners
pick_winners vs (seat ∷ seats) best winners =
    let v = value_of_seat vs seat in
    let c = compare_values v best in
    if is_empty winners || is_positive c
    then pick_winners vs seats v (seat ∷ [])
    else pick_winners vs seats best (if is_zero c then winners ++ seat ∷ [] else winners)

-- `key` of `clockwiseFromButton`
abbrev pub clockwise_key : ℕ → ℕ → ℕ
clockwise_key button s = if ltb button s then s - button else s + 2 ^ 20 - button

-- `h.clockwiseFromButton`
unfoldable pub clockwise_from_button : ℕ → List ℕ → List ℕ
clockwise_from_button button seats = sort_by (clockwise_key button) seats

-- `h.potWinnersOn`, with the values and the winners of each pot.
unfoldable pub winners_of : ℕ → Values → Pot → List ℕ
winners_of button vs pot = clockwise_from_button button (pick_winners vs pot.eligible no_value [])

abbrev pub left_of_button : Hand → ℕ
left_of_button h = next_of h.players (index_from 0 h.cfg.button_seat h.players)

-- The last aggressor, if they did not fold.
unfoldable pub live_aggressor : Hand → Outcome Error (Option ℕ)
live_aggressor h = elim h.aggressor [
  | none ↦ ok none
  | some i ↦ elim (get_elem? h.players i) [
    | none ↦ panic
    | some p ↦ ok (if p.folded then none else some i)
  ]
]

-- Where the showdown starts; `none` is the loop that does not end, when all have folded.
unfoldable pub show_start : Hand → Option ℕ → Option ℕ
unfolding scan
show_start h aggressor = elim aggressor [
  | none ↦ scan live h.players (left_of_button h) (length h.players)
  | some i ↦ some i
]

-- The seats of the live players among the given indices.
abbrev pub live_seats : List Player → List ℕ → List ℕ
live_seats ps [] = []
live_seats ps (i ∷ is) = elim (get_elem? ps i) [
  | none ↦ live_seats ps is
  | some p ↦ if live p then p.seat ∷ live_seats ps is else live_seats ps is
]

-- `h.showdownOrder`
unfoldable pub showdown_order : Hand → Outcome Error (List ℕ)
unfolding show_start live_aggressor
showdown_order h = live_aggressor h >>= λ aggressor. elim (show_start h aggressor) [
  | none ↦ panic
  | some i ↦ ok (live_seats h.players (clockwise h.players i (length h.players)))
]

abbrev pub mem : ℕ → List ℕ → Bool
mem s = any (λ t. t == s)

-- One player's cards are on the table and beat `mine`.
abbrev beats : List Card → HandValue → Player → Outcome Error Bool
beats board mine q = do v ← evaluate_with board q; ok (is_positive (compare_values v mine))

-- The inner loop of `mustShow`: is some other hand on the table that is eligible better?
unfoldable pub beaten_in : List Player → List Card → HandValue → ℕ → List ℕ → Outcome Error Bool
beaten_in ps board mine seat [] = ok false
beaten_in ps board mine seat (s ∷ ss) =
    if s == seat then beaten_in ps board mine seat ss else elim (by_seat ps s) [
      | none ↦ beaten_in ps board mine seat ss
      | some q ↦
          if q.folded || not q.revealed
          then beaten_in ps board mine seat ss
          else (beats board mine q >>= λ b.
              beaten_in ps board mine seat ss >>= λ rest. ok (b || rest))
    ]

-- The loop over the pots.
unfoldable pub can_win : List Player → List Card → HandValue → ℕ → List Pot → Outcome Error Bool
can_win ps board mine seat [] = ok false
can_win ps board mine seat (pot ∷ rest) =
    let later = can_win ps board mine seat rest in
    beaten_in ps board mine seat pot.eligible >>= λ beaten.
    if mem seat pot.eligible && not beaten then ok true else later

unfoldable pub must_show_by : RevealPolicy → Hand → Player → Outcome Error Bool
unfolding can_win
must_show_by reveal_all h p = ok true
must_show_by reveal_winners_only h p = ok (mem p.seat h.show_winner)
must_show_by reveal_in_order h p = do
  mine ← evaluate_with h.board p
  can_win h.players h.board mine p.seat (pots h.players)

-- `h.mustShow`
unfoldable pub must_show : Hand → Player → Outcome Error Bool
unfolding must_show_by
must_show h p = must_show_by h.cfg.reveal h p
