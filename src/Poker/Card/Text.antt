-- ===== src/Poker/Card/Text.antt =====
-- Cards and their texts: what is printed is read back, and nothing else is read.
use showdown.Base.{
  ℕ, zero, suc, ◌+◌, ◌*◌, ◌/◌, ◌%◌, ◌<◌, ◌≡◌, refl, ap, ◌∙◌, Bool, true, false, not, ◌&&◌, List, [],
  ◌∷◌, ◌++◌, Option, none, some, arith, ◌==◌, if◌then◌else◌, get_or, length, All, lt→ltb,
}
use mathlib.Core.List.{append-nil, append_assoc}
use showdown.Poker.Card.{
  Card, deck_size, rank_chars, suit_chars, to_text, index_of, make_card, card_of, parse_card,
  flush_word, parse_from, must_parse_cards,
}

-- A test holds for the first `n` cards.
holds_up_to : (Card → Bool) → ℕ → Bool
holds_up_to t zero = true
holds_up_to t (suc n) = let before = holds_up_to t n in if t n then before else false

holds_up_to-lt : (t : Card → Bool) (n : ℕ) (c : Card) → c < n → holds_up_to t n ≡ true → t c ≡ true
unfolding holds_up_to
holds_up_to-lt t zero c less table = absurd (omega arith)
holds_up_to-lt t (suc n) c less table = ground (arith, holds_up_to-lt t n c)

-- Two bytes that are no spaces, which parse to the card.
reads_back : Card → List ℕ → Bool
reads_back c (a ∷ b ∷ []) = not (a == b' ') && (not (b == b' ') && parses (parse_card (a ∷ b ∷ [])))
  where
    parses : Option Card → Bool
    parses none = false
    parses (some d) = d == c
reads_back c _ = false

record ReadsBack (c : Card) (s : List ℕ) : Type 0 where
  first : ℕ
  second : ℕ
  spelled : s ≡ first ∷ second ∷ []
  first_plain : (first == b' ') ≡ false
  second_plain : (second == b' ') ≡ false
  parsed : parse_card (first ∷ second ∷ []) ≡ some c

reads_back_sound : (c : Card) (s : List ℕ) → reads_back c s ≡ true → ReadsBack c s
unfolding reads_back
reads_back_sound c [] h = cc
reads_back_sound c (a ∷ []) h = cc
reads_back_sound c (a ∷ b ∷ []) h = record {
  first = a;
  second = b;
  spelled = refl;
  first_plain = ground arith;
  second_plain = ground arith;
  parsed = ground arith;
}
reads_back_sound c (a ∷ b ∷ x ∷ r) h = cc

to_text_table : holds_up_to (λ c. reads_back c (to_text c)) deck_size ≡ true
unfolding holds_up_to reads_back to_text parse_card make_card
to_text_table = refl

to_text-ReadsBack : (c : Card) → c < deck_size → ReadsBack c (to_text c)
to_text-ReadsBack c h =
    reads_back_sound c (to_text c) (holds_up_to-lt _ deck_size c h to_text_table)

-- Every card of the deck is read back from its text.
pub parse_card-to_text : (c : Card) → c < deck_size → parse_card (to_text c) ≡ some c
parse_card-to_text c h = let r = to_text-ReadsBack c h in rw r.spelled r.parsed

index_of-found :
    (b : ℕ) (xs : List ℕ) (i : ℕ) → index_of b xs ≡ some i → (get_or xs i 0 ≡ b) × (i < length xs)
index_of-found b [] i h = cc
index_of-found b (x ∷ xs) zero h = ground arith
index_of-found b (x ∷ xs) (suc i) h = ground (arith, index_of-found b xs i)

card_of-text :
    (r s : ℕ) (c : Card)
    → r < 13
    → s < 4
    → make_card r s ≡ c
    → (to_text c ≡ get_or rank_chars r 0 ∷ get_or suit_chars s 0 ∷ []) × (c < deck_size)
unfolding make_card to_text
card_of-text r s c hr hs e =
    let eq : c ≡ r * 4 + s = omega arith in
    let er : c / 4 ≡ r = omega arith in
    let es : c % 4 ≡ s = omega arith in
    let below : c < deck_size = omega arith in (rw (lt→ltb c 52 below, er, es), below)

-- A text that parses is the text of the card that it gives, and that card is in the deck.
pub to_text-parse_card :
    (s : List ℕ) (c : Card) → parse_card s ≡ some c → (to_text c ≡ s) × (c < deck_size)
unfolding parse_card
to_text-parse_card [] c h = cc
to_text-parse_card (a ∷ []) c h = cc
to_text-parse_card (a ∷ b ∷ []) c h =
    found (index_of a rank_chars) (index_of b suit_chars) refl refl h
  where
    found :
        (i j : Option ℕ)
        → index_of a rank_chars ≡ i
        → index_of b suit_chars ≡ j
        → card_of i j ≡ some c
        → (to_text c ≡ a ∷ b ∷ []) × (c < deck_size)
    found none j hi hj e = cc
    found (some r) none hi hj e = cc
    found (some r) (some s) hi hj e =
        let (ra, rb) = index_of-found a rank_chars r hi in
        let (sa, sb) = index_of-found b suit_chars s hj in
        let (t, k) = card_of-text r s c rb sb (cc) in (rw (← ra, ← sa) t, k)
to_text-parse_card (a ∷ b ∷ x ∷ r) c h = cc

-- Cards written one after another with a space between them.
abbrev pub spell : List Card → List ℕ
spell [] = []
spell (c ∷ []) = to_text c
spell (c ∷ d ∷ cs) = to_text c ++ b' ' ∷ spell (d ∷ cs)

parse_from-word :
    (a b c : ℕ) (rest : List ℕ) (out : List Card)
    → (a == b' ') ≡ false
    → (b == b' ') ≡ false
    → parse_card (a ∷ b ∷ []) ≡ some c
    → (parse_from (a ∷ b ∷ []) [] out ≡ some (out ++ c ∷ []))
      × (parse_from (a ∷ b ∷ b' ' ∷ rest) [] out ≡ parse_from rest [] (out ++ c ∷ []))
unfolding parse_from
parse_from-word a b c rest out ha hb e = (
  rw (ha, parse_from, hb, parse_from, e, flush_word),
  rw (ha, parse_from, hb, parse_from, e, flush_word),
)

parse_from-spell :
    (cs : List Card) (out : List Card)
    → All (λ c. c < deck_size) cs
    → parse_from (spell cs) [] out ≡ some (out ++ cs)
unfolding parse_from
parse_from-spell [] out h = rw append-nil
parse_from-spell (c ∷ []) out h =
    let r = to_text-ReadsBack c h.0 in
    rw r.spelled (parse_from-word _ _ c [] out r.first_plain r.second_plain r.parsed).0
parse_from-spell (c ∷ d ∷ cs) out h =
    let r = to_text-ReadsBack c h.0 in
    rw r.spelled (
      (parse_from-word _ _ c (spell (d ∷ cs)) out r.first_plain r.second_plain r.parsed).1
      ∙ parse_from-spell (d ∷ cs) (out ++ c ∷ []) h.1
      ∙ ap some (append_assoc out (c ∷ []) (d ∷ cs)))

-- A list of cards of the deck, spelled with spaces between them, is read back whole.
pub must_parse_cards-spell :
    (cs : List Card) → All (λ c. c < deck_size) cs → must_parse_cards (spell cs) ≡ some cs
unfolding must_parse_cards
must_parse_cards-spell cs h = parse_from-spell cs [] h
