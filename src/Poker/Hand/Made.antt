-- ===== src/Poker/Hand/Made.antt =====
-- hand.go: `RemainingBoard` and `MadeHand`.
use showdown.Base.{
  ℕ, zero, suc, ◌+◌, ◌-◌, ◌≤◌, ◌≡◌, refl, sym, ◌∙◌, inl, inr, true, false, ◌||◌, List, [], ◌∷◌,
  ◌++◌, some, arith, ltb, leb, ◌==◌, length, length-append, Bool-cases, if_both,
}
use showdown.Base.Outcome.{ok}
use showdown.Poker.Card.{Card}
use showdown.Poker.Eval.{HandValue, compare_values}
use showdown.Poker.Types.{Player}
use showdown.Poker.Hand.State.{Hand, by_seat}
use showdown.Poker.Hand.Show.{evaluate_with}
use showdown.Base.{true, false, Bool, get_elem?, if◌then◌else◌, ◌<◌, zero, suc}
use showdown.Poker.Hand.Ids.{known, id_of, by_seat-known}
use showdown.Poker.Hand.Shows.{evaluate_with-IsOk}
use showdown.Poker.Hand.Inv.{Dealt, board-le}
use showdown.Poker.Hand.Views.{cut, remaining_board, better, made_of, made_hand}

length-cut : {A : Type 0} (i n : ℕ) (xs : List A) → i + n ≤ length xs → length (cut i n xs) ≡ n
length-cut zero zero [] h = refl
length-cut zero (suc n) [] h = absurd (omega arith)
length-cut (suc i) n [] h = absurd (omega arith)
length-cut zero zero (x ∷ xs) h = refl
length-cut zero (suc n) (x ∷ xs) h = omega (arith, length-cut zero n xs (omega arith))
length-cut (suc i) n (x ∷ xs) h = length-cut i n xs (omega arith)

board_size-le : (h : Hand) → Dealt h → length h.board + (5 - length h.board) ≡ 5
board_size-le h d = omega (arith, board-le h d)

remaining_board-five : (h : Hand) → Dealt h → length (h.board ++ remaining_board h) ≡ 5
unfolding remaining_board
remaining_board-five h d =
    let room : h.deck_pos + (5 - length h.board) ≤ length h.deck =
      ground (arith, d.enough, d.board_full) in
    if_both (λ xs. length (h.board ++ xs) ≡ 5)
      ((5 - length h.board == 0) || ltb (length h.deck) (h.deck_pos + (5 - length h.board)))
      {x = []} {y = cut h.deck_pos (5 - length h.board) h.deck}
      (λ none_left. ground (arith, none_left, room, length-append h.board [], board-le h d))
      λ _. omega (
        arith,
        length-append h.board (cut h.deck_pos (5 - length h.board) h.deck),
        length-cut h.deck_pos (5 - length h.board) h.deck room,
        board-le h d,
      )

get-cut :
    {A : Type 0} (p n i : ℕ) (xs : List A) → i < n → get_elem? (cut p n xs) i ≡ get_elem? xs (p + i)
get-cut zero n i [] lt = refl
get-cut (suc p) n i [] lt = refl
get-cut zero zero i (x ∷ xs) lt = absurd (omega (arith, lt))
get-cut zero (suc n) zero (x ∷ xs) lt = refl
get-cut zero (suc n) (suc i) (x ∷ xs) lt =
    let here : 0 + suc i ≡ suc i = omega arith in
    let back : 0 + i ≡ i = omega arith in
    let rest : get_elem? (cut zero n xs) i ≡ get_elem? xs (0 + i) =
      get-cut zero n i xs (omega (arith, lt)) in
    rw here (rw back at rest)
get-cut (suc p) n i (x ∷ xs) lt =
    let later : suc p + i ≡ suc (p + i) = omega arith in rw later (get-cut p n i xs lt)

-- On a valid deal `RemainingBoard` completes the board to five cards, with the cards that lie next in
-- the deck, in their order.
pub remaining_board-completes :
    (h : Hand)
    → Dealt h
    → (length (h.board ++ remaining_board h) ≡ 5)
      × ((i : ℕ)
          → i < length (remaining_board h)
          → get_elem? (remaining_board h) i ≡ get_elem? h.deck (h.deck_pos + i))
unfolding remaining_board
remaining_board-completes h d = (
  remaining_board-five h d,
  λ i lt.
      next_cards
        ((5 - length h.board == 0) || ltb (length h.deck) (h.deck_pos + (5 - length h.board))) i lt,
)
  where
    next_cards :
        (b : Bool) (i : ℕ)
        → i < length (if b then [] else cut h.deck_pos (5 - length h.board) h.deck)
        → get_elem? (if b then [] else cut h.deck_pos (5 - length h.board) h.deck) i
          ≡ get_elem? h.deck (h.deck_pos + i)
    next_cards true i lt = absurd (omega (arith, lt))
    next_cards false i lt =
        let room : h.deck_pos + (5 - length h.board) ≤ length h.deck =
          ground (arith, d.enough, d.board_full) in
        get-cut h.deck_pos (5 - length h.board) i h.deck
          (omega (arith, lt, length-cut h.deck_pos (5 - length h.board) h.deck room))

-- At least as good as the player's value on a board.
abbrev pub AtLeast : HandValue → List Card → Player → Type 0
AtLeast v board p = (w : HandValue) × (evaluate_with board p ≡ ok w) × (w.rank ≤ v.rank)

better-le : (v w : HandValue) → (v.rank ≤ (better v w).rank) × (w.rank ≤ (better v w).rank)
unfolding compare_values
better-le v w = ground arith

made_of-AtLeast :
    (h : Hand) (p : Player)
    → Dealt h
    → 3 ≤ length h.board
    → known (id_of p) ≡ true
    → (v : HandValue) × (made_of h p ≡ ok (some v))
      × AtLeast v h.board p
      × (h.run_twice ≡ true → AtLeast v h.board2 p)
unfolding made_of
made_of-AtLeast h p d some_board a =
    let (v, f) = evaluate_with-IsOk h.board p some_board (board-le h d) d.board_valid a in
    elim (Bool-cases h.run_twice) [
      | inl twice ↦
          let size : length h.board2 ≡ length h.board = d.board2_full twice ∙ sym d.board_full in
          let (w, g) =
            evaluate_with-IsOk h.board2 p (omega (arith, size)) (omega (arith, size, board-le h d))
              d.board2_valid a in
          let r : leb 3 (length h.board2) ≡ true = ground (arith, size, some_board) in
          let (first, second) = better-le v w in
          rw (f, made_of, twice, r, g) (better v w, refl, (v, refl, first), λ _. (w, refl, second))
      | inr once ↦ rw (f, made_of, once) (v, refl, (v, refl, omega arith), λ t. absurd cc)
    ]

made_hand-made_of :
    (h : Hand) (seat : ℕ) (p : Player)
    → 3 ≤ length h.board
    → by_seat h.players seat ≡ some p
    → p.folded ≡ false
    → made_hand h seat ≡ made_of h p
unfolding made_hand
made_hand-made_of h seat p some_board e in_hand =
    rw (e, made_hand)
      (if_both (λ m. m ≡ made_of h p) (p.folded || ltb (length h.board) 3)
        (λ c. absurd (ground (arith, c, in_hand, some_board))) λ _. refl)

-- From the flop on `MadeHand` of a player who did not fold is a hand that is at least as good as
-- the player's on the first board and, run twice, on the second.
pub made_hand-AtLeast :
    (h : Hand) (seat : ℕ) (p : Player)
    → Dealt h
    → 3 ≤ length h.board
    → by_seat h.players seat ≡ some p
    → p.folded ≡ false
    → (v : HandValue) × (made_hand h seat ≡ ok (some v))
      × AtLeast v h.board p
      × (h.run_twice ≡ true → AtLeast v h.board2 p)
made_hand-AtLeast h seat p d some_board e in_hand =
    let (v, f, first, second) =
      made_of-AtLeast h p d some_board (by_seat-known h.players seat p d.players_known e) in
    (v, made_hand-made_of h seat p some_board e in_hand ∙ f, first, second)
