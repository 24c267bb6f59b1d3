-- ===== src/Poker/Tests/Cards.antt =====
-- Concrete cards, decks, values and pots.
use showdown.Base.{
  ◌/◌, ◌<◌, ◌≡◌, refl, true, false, ◌&&◌, List, [], ◌∷◌, some, arith, length, if◌then◌else◌, leb,
  ltb, All,
}
use showdown.Base.Text.{text}
use showdown.Poker.Card.{
  Card, royal, to_text, parse_card, must_parse_cards, variant_deck, variant_deck_size, lowest_rank,
  rank, deck_size, secure_shuffle,
}
use showdown.Poker.Card.Text.{parse_card-to_text, to_text-parse_card, must_parse_cards-spell, spell}
use showdown.Poker.Card.Decks.{occurrences, variant_deck_complete, secure_shuffle-keeps}
use showdown.Poker.Eval.{HandValue, evaluate, evaluate5, straight_flush, full_house}
use showdown.Poker.Eval.Best.{evaluate-best, choose, top_rank}
use showdown.Poker.Pots.{PotPlayer, build_pots, contributed, amounts}
use showdown.Poker.Pots.Conserve.{build_pots-conserves}
use showdown.Poker.Pots.Eligible.{IsContended, build_pots-IsContended}

royal_flush_test : (evaluate5 (48 ∷ 44 ∷ 40 ∷ 36 ∷ 32 ∷ [])).category ≡ straight_flush
unfolding evaluate5
royal_flush_test = refl

full_house_test : (evaluate5 (48 ∷ 49 ∷ 41 ∷ 40 ∷ 50 ∷ [])).category ≡ full_house
unfolding evaluate5
full_house_test = refl

wheel_test : (evaluate5 (48 ∷ 0 ∷ 4 ∷ 8 ∷ 12 ∷ [])).best ≡ 12 ∷ 8 ∷ 4 ∷ 0 ∷ 48 ∷ []
unfolding evaluate5
wheel_test = refl

evaluate-best_example :
    (v : HandValue) × (evaluate (48 ∷ 1 ∷ 22 ∷ 44 ∷ 5 ∷ 26 ∷ 40 ∷ []) ≡ some v)
    × (v.rank ≡ top_rank (choose 5 (48 ∷ 1 ∷ 22 ∷ 44 ∷ 5 ∷ 26 ∷ 40 ∷ [])))
evaluate-best_example =
    evaluate-best (48 ∷ 1 ∷ 22 ∷ 44 ∷ 5 ∷ 26 ∷ 40 ∷ []) (omega arith) (omega arith) refl

-- A player who folded, a short all-in and two who cover it.
abbrev three_levels : List PotPlayer
three_levels =
    record { seat = 0; total = 30; folded = true; all_in = false }
    ∷ record { seat = 1; total = 20; folded = false; all_in = true }
    ∷ record { seat = 2; total = 50; folded = false; all_in = false }
    ∷ record { seat = 3; total = 50; folded = false; all_in = false }
    ∷ []

build_pots-conserves_example : amounts (build_pots three_levels) ≡ contributed three_levels
build_pots-conserves_example = build_pots-conserves three_levels

build_pots-IsContended_example : All (IsContended three_levels) (build_pots three_levels)
build_pots-IsContended_example = build_pots-IsContended three_levels refl

parse_card-to_text_example : parse_card (to_text 48) ≡ some 48
parse_card-to_text_example = parse_card-to_text 48 (omega arith)

ace_of_spades : parse_card (text "As") ≡ some 48
unfolding parse_card
ace_of_spades = refl

to_text-parse_card_example : (to_text 48 ≡ text "As") × (48 < deck_size)
to_text-parse_card_example = to_text-parse_card (text "As") 48 ace_of_spades

must_parse_cards-spell_example : must_parse_cards (spell (48 ∷ 3 ∷ [])) ≡ some (48 ∷ 3 ∷ [])
must_parse_cards-spell_example =
    must_parse_cards-spell (48 ∷ 3 ∷ []) (omega arith, (omega arith, tt))

variant_deck_complete_example :
    (occurrences 33 (variant_deck royal)
      ≡ (if leb (lowest_rank royal) (rank 33) && ltb 33 deck_size then 1 else 0))
    × (length (variant_deck royal) ≡ variant_deck_size royal)
variant_deck_complete_example = variant_deck_complete royal 33

secure_shuffle-keeps_example :
    (occurrences 1 (secure_shuffle (λ n. n / 2) (48 ∷ 1 ∷ 22 ∷ []))
      ≡ occurrences 1 (48 ∷ 1 ∷ 22 ∷ []))
    × (length (secure_shuffle (λ n. n / 2) (48 ∷ 1 ∷ 22 ∷ []))
        ≡ length {A = Card} (48 ∷ 1 ∷ 22 ∷ []))
secure_shuffle-keeps_example = secure_shuffle-keeps (λ n. n / 2) (48 ∷ 1 ∷ 22 ∷ []) 1
