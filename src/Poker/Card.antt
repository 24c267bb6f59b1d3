-- ===== src/Poker/Card.antt =====
-- backend/internal/poker/card.go: ranks, suits, cards, their two-character form, the decks and
-- the shuffle. A card is the byte of the source, and a text is the list of its bytes.
use showdown.Base.{
  ℕ, zero, suc, ◌+◌, ◌-◌, ◌*◌, ◌/◌, ◌%◌, Bool, List, [], ◌∷◌, ◌++◌, Option, none, some, ltb, leb,
  ◌==◌, if◌then◌else◌, get_or, get_elem?, set, filter, length, range_from,
}
pub mod Text
pub mod Decks

abbrev pub Rank : Type 0
Rank = ℕ

abbrev pub Suit : Type 0
Suit = ℕ

abbrev pub Card : Type 0
Card = ℕ

-- Two is 0 and Ace is 12.
abbrev pub two : Rank
two = 0

abbrev pub five : Rank
five = 3

abbrev pub ten : Rank
ten = 8

abbrev pub ace : Rank
ace = 12

abbrev pub deck_size : ℕ
deck_size = 52

unfoldable pub make_card : Rank → Suit → Card
make_card r s = (r * 4 + s) % 256

abbrev pub rank : Card → Rank
rank c = c / 4

abbrev pub suit : Card → Suit
suit c = c % 4

abbrev pub valid : Card → Bool
valid c = ltb c deck_size

-- `rankChars` and `suitChars`.
abbrev pub rank_chars : List ℕ
rank_chars =
    b'2' ∷ b'3' ∷ b'4' ∷ b'5' ∷ b'6' ∷ b'7' ∷ b'8' ∷ b'9' ∷ b'T' ∷ b'J' ∷ b'Q' ∷ b'K' ∷ b'A' ∷ []

abbrev pub suit_chars : List ℕ
suit_chars = b's' ∷ b'h' ∷ b'd' ∷ b'c' ∷ []

-- `Card.String`. Behind the test both indices are in range, so the defaults are never read.
unfoldable pub to_text : Card → List ℕ
to_text c =
    if valid c
    then get_or rank_chars (rank c) 0 ∷ get_or suit_chars (suit c) 0 ∷ []
    else b'?' ∷ b'?' ∷ []

-- `none` is the error.
unfoldable pub marshal_text : Card → Option (List ℕ)
unfolding to_text
marshal_text c = if valid c then some (to_text c) else none

-- The loop that looks for a character; `none` stands for the index -1.
abbrev pub index_of : ℕ → List ℕ → Option ℕ
index_of b [] = none
index_of b (x ∷ xs) =
    let rest = index_of b xs in
    if x == b then some 0 else elim rest [ none ↦ none | some i ↦ some (suc i) ]

card_of : Option ℕ → Option ℕ → Option Card
unfolding make_card
card_of none s = none
card_of (some r) none = none
card_of (some r) (some s) = some (make_card r s)

unfoldable pub parse_card : List ℕ → Option Card
unfolding card_of
parse_card [] = none
parse_card (a ∷ []) = none
parse_card (a ∷ b ∷ []) = card_of (index_of a rank_chars) (index_of b suit_chars)
parse_card (a ∷ b ∷ c ∷ rest) = none

-- `UnmarshalText`: the receiver keeps its value when the text is refused.
unfoldable pub unmarshal_text : Card → List ℕ → Card × Bool
unmarshal_text c text = elim (parse_card text) [
  | none ↦ (c, Bool.false)
  | some parsed ↦ (parsed, Bool.true)
]

-- What `MustParseCards` does at the end of a word: `start` is -1 while `word` is empty.
flush_word : List ℕ → List Card → Option (List Card)
flush_word [] out = some out
flush_word (b ∷ word) out = elim (parse_card (b ∷ word)) [
  | none ↦ none
  | some c ↦ some (out ++ c ∷ [])
]

-- The loop of `MustParseCards` over the bytes left, with the bytes of the current word and the
-- cards so far. `none` is its panic.
parse_from : List ℕ → List ℕ → List Card → Option (List Card)
unfolding flush_word
parse_from [] word out = flush_word word out
parse_from (b ∷ text) word out = elim (b == b' ') [
  | Bool.true ↦ elim (flush_word word out) [ none ↦ none | some out' ↦ parse_from text [] out' ]
  | Bool.false ↦ parse_from text (word ++ b ∷ []) out
]

unfoldable pub must_parse_cards : List ℕ → Option (List Card)
unfolding parse_from
must_parse_cards s = parse_from s [] []

-- The 52 cards in canonical order.
unfoldable pub new_deck : List Card
new_deck = range_from 0 deck_size

pub data Variant : Type 0 where
  holdem royal : Variant

abbrev pub royal_deck_size : ℕ
royal_deck_size = 20

unfoldable pub lowest_rank : Variant → Rank
lowest_rank holdem = two
lowest_rank royal = ten

-- `DeckSize` of a variant.
unfoldable pub variant_deck_size : Variant → ℕ
unfolding lowest_rank
variant_deck_size v = (ace - lowest_rank v + 1) * 4

unfoldable pub variant_deck : Variant → List Card
unfolding lowest_rank
variant_deck v = filter (λ c. leb (lowest_rank v) (rank c)) (range_from 0 deck_size)

-- `deck[i], deck[j] = deck[j], deck[i]`; an index out of range panics in the source, and the
-- shuffle makes none.
unfoldable pub swap : ℕ → ℕ → List Card → List Card
swap i j deck = elim (get_elem? deck i) [
  | none ↦ deck
  | some a ↦ elim (get_elem? deck j) [ none ↦ deck | some b ↦ set j a (set i b deck) ]
]

-- The Fisher-Yates loop from index `i` down to 1. `intn` answers each call of `secureIntn`; every
-- call has another argument, so a function covers every run of the random source.
shuffle_from : (ℕ → ℕ) → ℕ → List Card → List Card
unfolding swap
shuffle_from intn zero deck = deck
shuffle_from intn (suc i) deck = shuffle_from intn i (swap (suc i) (intn (suc i + 1)) deck)

unfoldable pub secure_shuffle : (ℕ → ℕ) → List Card → List Card
unfolding shuffle_from
secure_shuffle intn deck = shuffle_from intn (length deck - 1) deck
