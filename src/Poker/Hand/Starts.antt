-- ===== src/Poker/Hand/Starts.antt =====
-- Starting a hand: what `NewHand` returns.
use showdown.Base.{
  ℕ, suc, ◌+◌, ◌*◌, ◌≤◌, ◌<◌, ◌≡◌, refl, sym, ◌∙◌, inl, inr, Bool, true, false, ◌||◌, List, [], ◌∷◌,
  ◌++◌, Option, none, some, arith, ltb, ◌==◌, if◌then◌else◌, length, length-append, length_as_sum,
  sum_by, sum_by-append, sum_by-insertion_sort, sort_by, All-append, All-insertion_sort,
  Option-cases, if_both,
}
use mathlib.Core.Path.{subst}
use showdown.Base.Outcome.{Outcome, Returns, Ensures, Ensures-bind, Ensures-of_Returns}
use showdown.Base.{all, All, and_true, true}
use showdown.Poker.Hand.Ids.{known, id_of, all-known}
use showdown.Poker.Card.{valid, Variant, holdem, royal, Card, variant_deck, variant_deck_size}
use showdown.Poker.Card.Decks.{variant_deck_complete}
use showdown.Poker.Types.{Player, Seat, HandConfig, Error}
use showdown.Poker.Hand.State.{worth, live, count, index_from}
use showdown.Poker.Hand.Deal.{
  new_player, is_taken, seat_players, fresh_hand, open_hand, shuffled_deck, button_index,
  start_hand, check_start, new_hand,
}
use showdown.Poker.Hand.Chips.{worths}
use showdown.Poker.Hand.Inv.{NoBets, Good}
use showdown.Poker.Hand.Leaving.{index_from-lt}
use showdown.Poker.Hand.Straddles.{FairStraddle}
use showdown.Poker.Hand.Holes.{open_hand-Good}

-- The chips that the players bring.
abbrev pub brought : List Seat → ℕ
brought = sum_by (λ s. s.stack)

-- Players with `chips` chips, none of them bet or folded.
-- One of the ten seats of a table.
abbrev pub in_seat : Seat → Bool
in_seat s = ltb s.seat 10

-- The shuffle gives cards of the deck where it gets such; there may be none.
abbrev pub KeepsCards : Option (List Card → List Card) → Type 0
KeepsCards none = Unit
KeepsCards (some shuffle) = (cs : List Card) → all valid cs ≡ true → all valid (shuffle cs) ≡ true

deck_valid : (v : Variant) → all valid (variant_deck v) ≡ true
unfolding variant_deck
deck_valid holdem = refl
deck_valid royal = refl

record Sitting (chips size : ℕ) (ps : List Player) : Type 0 where
  chips_seated : worths ps ≡ chips
  size_seated : length ps ≡ size
  all_live : count live ps ≡ length ps
  no_bets : NoBets ps
  known_all : All (λ p. known (id_of p) ≡ true) ps

seat_one :
    (cfg : HandConfig) (s : Seat) (chips size : ℕ) (ps : List Player)
    → ltb s.seat 10 ≡ true
    → Sitting chips size ps
    → Sitting (chips + s.stack) (size + 1) (ps ++ new_player cfg s ∷ [])
seat_one cfg s chips size ps at t = record {
  chips_seated = omega (arith, sum_by-append worth ps (new_player cfg s ∷ []), t.chips_seated);
  size_seated = omega (arith, length-append ps (new_player cfg s ∷ []), t.size_seated);
  all_live = omega (
    arith,
    sum_by-append (λ p. if live p then 1 else 0) ps (new_player cfg s ∷ []),
    length-append ps (new_player cfg s ∷ []),
    t.all_live,
  );
  no_bets = All-append (λ p. p.bet ≡ 0) ps (new_player cfg s ∷ []) t.no_bets (refl, tt);
  known_all =
      All-append (λ p. known (id_of p) ≡ true) ps (new_player cfg s ∷ []) t.known_all
        (rw at refl, tt);
}

seat_players-Sitting :
    (cfg : HandConfig) (ss : List Seat) (chips size : ℕ) (ps : List Player)
    → all in_seat ss ≡ true
    → Sitting chips size ps
    → Ensures (Sitting (chips + brought ss) (size + length ss)) (seat_players cfg ss ps)
unfolding seat_players
seat_players-Sitting cfg [] chips size ps at t = record {
  chips_seated = omega (arith, t.chips_seated);
  size_seated = omega (arith, t.size_seated);
  all_live = t.all_live;
  no_bets = t.no_bets;
  known_all = t.known_all;
}
seat_players-Sitting cfg (s ∷ ss) chips size ps at t =
    let (first, others) = and_true (in_seat s) (all in_seat ss) at in
    let goal : Outcome Error (List Player) → Type 0 =
      Ensures (Sitting (chips + (s.stack + brought ss)) (size + suc (length ss))) in
    let rest : goal (seat_players cfg ss (ps ++ new_player cfg s ∷ [])) =
      subst
        (λ c.
          Ensures (Sitting c (size + suc (length ss)))
            (seat_players cfg ss (ps ++ new_player cfg s ∷ [])))
        (omega arith)
        (subst
          (λ n.
            Ensures (Sitting (chips + s.stack + brought ss) n)
              (seat_players cfg ss (ps ++ new_player cfg s ∷ [])))
          (omega arith)
          (seat_players-Sitting cfg ss (chips + s.stack) (size + 1) (ps ++ new_player cfg s ∷ [])
            others (seat_one cfg s chips size ps first t))) in
    if_both goal (s.stack == 0) (λ _. tt) λ _. if_both goal (is_taken ps s.seat) (λ _. tt) λ _. rest

sort-Sitting :
    (chips size : ℕ) (ps : List Player)
    → Sitting chips size ps
    → Sitting chips size (sort_by (λ (p : Player). p.seat) ps)
sort-Sitting chips size ps t =
    let qs : List Player = sort_by (λ (p : Player). p.seat) ps in
    let same : length qs ≡ length ps =
      length_as_sum qs ∙ sum_by-insertion_sort (λ _. 1) _ ps ∙ sym (length_as_sum ps) in
    record {
      chips_seated = sum_by-insertion_sort worth _ ps ∙ t.chips_seated;
      size_seated = same ∙ t.size_seated;
      all_live = sum_by-insertion_sort (λ p. if live p then 1 else 0) _ ps ∙ t.all_live ∙ sym same;
      no_bets = All-insertion_sort (λ p. p.bet ≡ 0) _ ps t.no_bets;
      known_all = All-insertion_sort (λ p. known (id_of p) ≡ true) _ ps t.known_all;
    }

button_index-lt :
    (cfg : HandConfig) (ps : List Player) → Ensures (λ i. i < length ps) (button_index cfg ps)
button_index-lt cfg ps = elim (Option-cases (index_from 0 cfg.button_seat ps)) [
  | inl e ↦ rw (e, button_index) tt
  | inr (i, e) ↦ rw (e, button_index) (omega (arith, index_from-lt 0 cfg.button_seat ps i e))
]

-- The cards for so many players and a board.
abbrev FullDeck : ℕ → List Card → Type 0
FullDeck n deck = (n * 2 + 5 ≤ length deck) × (all valid deck ≡ true)

shuffled_deck-fits :
    (cfg : HandConfig) (n : ℕ) (shuffle : List Card → List Card)
    → KeepsCards (some shuffle)
    → Ensures (FullDeck n) (shuffled_deck cfg n shuffle)
unfolding shuffled_deck
shuffled_deck-fits cfg n shuffle keeps =
    let deck = variant_deck cfg.variant in
    let goal : Outcome Error (List Card) → Type 0 = Ensures (FullDeck n) in
    if_both goal (ltb (length deck) (n * 2 + 5)) (λ _. tt)
      λ room.
        if_both goal (length (shuffle deck) == variant_deck_size cfg.variant)
          (λ same. (
            ground (arith, room, same, (variant_deck_complete cfg.variant 0).1),
            keeps deck (deck_valid cfg.variant),
          ))
          λ _. tt

-- The table is set: the hand can be opened.
set-Good :
    (cfg : HandConfig) (chips n button : ℕ) (ps : List Player) (deck : List Card)
    → 2 ≤ n
    → cfg.small_blind ≤ cfg.big_blind
    → FairStraddle cfg
    → Sitting chips n ps
    → button < length ps
    → FullDeck n deck
    → Returns (Good chips) (open_hand button (fresh_hand cfg deck ps button))
unfolding fresh_hand
set-Good cfg chips n button ps deck two le fair t lt room =
    subst (λ c. Returns (Good c) (open_hand button (fresh_hand cfg deck ps button))) t.chips_seated
      (open_hand-Good button (fresh_hand cfg deck ps button) lt (omega (arith, two, t.size_seated))
        le fair t.no_bets
        (
          record {
            board_full = refl;
            board2_full = λ e. cc;
            enough = omega (arith, room.0, t.size_seated);
            board_valid = refl;
            board2_valid = refl;
            deck_valid = room.1;
            players_known = all-known ps t.known_all;
            turn_in = refl;
            aggressor_in = refl;
          },
          refl,
        )
        t.all_live)

start_hand-Good :
    (cfg : HandConfig) (seats : List Seat) (shuffle : List Card → List Card)
    → 2 ≤ length seats
    → cfg.small_blind ≤ cfg.big_blind
    → FairStraddle cfg
    → all in_seat seats ≡ true
    → KeepsCards (some shuffle)
    → Ensures (Good (brought seats)) (start_hand cfg seats shuffle)
unfolding start_hand
start_hand-Good cfg seats shuffle two le fair at keeps =
    Ensures-bind (Sitting (brought seats) (length seats)) (Good (brought seats))
      (seat_players cfg seats []) _ sitting
      λ ps t.
        let sorted : List Player = sort_by (λ (p : Player). p.seat) ps in
        Ensures-bind (λ i. i < length sorted) (Good (brought seats)) (button_index cfg sorted) _
          (button_index-lt cfg sorted)
          λ button lt.
            Ensures-bind (FullDeck (length seats)) (Good (brought seats))
              (shuffled_deck cfg (length seats) shuffle) _
              (shuffled_deck-fits cfg (length seats) shuffle keeps)
              λ deck room.
                Ensures-of_Returns (Good (brought seats))
                  (open_hand button (fresh_hand cfg deck sorted button))
                  (set-Good cfg (brought seats) (length seats) button sorted deck two le fair
                    (sort-Sitting (brought seats) (length seats) ps t) lt room)
  where
    nobody : Sitting 0 0 []
    nobody = record {
      chips_seated = refl;
      size_seated = refl;
      all_live = refl;
      no_bets = tt;
      known_all = tt;
    }

    sitting : Ensures (Sitting (brought seats) (length seats)) (seat_players cfg seats [])
    sitting =
        subst (λ c. Ensures (Sitting c (length seats)) (seat_players cfg seats [])) (omega arith)
          (subst (λ m. Ensures (Sitting (0 + brought seats) m) (seat_players cfg seats []))
            (omega arith) (seat_players-Sitting cfg seats 0 0 [] at nobody))

-- `NewHand` at the ten seats of a table, with a straddle that is none or not below the big blind and
-- a shuffle that only gives cards of the deck, never panics, whatever the other settings: it refuses,
-- or it returns a valid hand that has exactly the chips that the players bring.
pub new_hand-Good :
    (cfg : HandConfig) (seats : List Seat) (shuffle : Option (List Card → List Card))
    → FairStraddle cfg
    → all in_seat seats ≡ true
    → KeepsCards shuffle
    → Ensures (Good (brought seats)) (new_hand cfg seats shuffle)
unfolding new_hand check_start
new_hand-Good cfg seats shuffle fair at keeps =
    checked (ltb (length seats) 2) (ltb cfg.small_blind 1 || ltb cfg.big_blind cfg.small_blind)
      shuffle keeps refl refl
  where
    checked :
        (few blinds : Bool) (shuffle : Option (List Card → List Card))
        → KeepsCards shuffle
        → ltb (length seats) 2 ≡ few
        → (ltb cfg.small_blind 1 || ltb cfg.big_blind cfg.small_blind) ≡ blinds
        → Ensures (Good (brought seats)) (check_start few blinds shuffle cfg seats)
    checked true blinds shuffle k e f = tt
    checked false true shuffle k e f = tt
    checked false false none k e f = tt
    checked false false (some shuffle) k e f =
        start_hand-Good cfg seats shuffle (ground (arith, e)) (ground (arith, f)) fair at k
