-- ===== src/Poker/Card/Decks.antt =====
-- The decks hold each of their cards once, and a shuffle keeps every card.
use showdown.Base.{
  ℕ, zero, suc, ◌+◌, ◌-◌, ◌≡◌, refl, ◌≢◌, ap, ◌∙◌, sym, Bool, List, [], ◌∷◌, some, arith, ltb, leb,
  ◌==◌, if◌then◌else◌, get_elem?, length_as_sum, set, filter, inl, inr, length, sum_by, range_from,
  Option-cases, ◌&&◌,
}
use native.Mathlib.Decide.{ℕ_discrete}
use showdown.Poker.Card.{
  Card, rank, deck_size, Variant, holdem, royal, lowest_rank, variant_deck_size, variant_deck, swap,
  shuffle_from, secure_shuffle,
}

-- How often a card occurs.
abbrev pub occurrences : Card → List Card → ℕ
occurrences c = sum_by (λ d. if d == c then 1 else 0)

occurrences-range_from :
    (c a n : ℕ) → occurrences c (range_from a n) ≡ (if leb a c && ltb c (a + n) then 1 else 0)
occurrences-range_from c a zero = ground arith
occurrences-range_from c a (suc n) = ground (arith, occurrences-range_from c (suc a) n)

occurrences-filter :
    (p : Card → Bool) (c : Card) (xs : List Card)
    → occurrences c (filter p xs) ≡ (if p c then occurrences c xs else 0)
occurrences-filter p c [] = ground arith
occurrences-filter p c (x ∷ xs) = ground (arith, occurrences-filter p c xs)

occurrences-ranked :
    (low c n : ℕ)
    → occurrences c (filter (λ d. leb low (rank d)) (range_from 0 n))
      ≡ (if leb low (rank c) && ltb c n then 1 else 0)
occurrences-ranked low c n = ground (
  arith,
  occurrences-filter (λ d. leb low (rank d)) c (range_from 0 n),
  occurrences-range_from c 0 n,
)

-- A variant's deck holds each card from its lowest rank to the ace exactly once and no other, and
-- it has the size that the variant announces.
pub variant_deck_complete :
    (v : Variant) (c : Card)
    → (occurrences c (variant_deck v)
        ≡ (if leb (lowest_rank v) (rank c) && ltb c deck_size then 1 else 0))
      × (length (variant_deck v) ≡ variant_deck_size v)
unfolding variant_deck variant_deck_size
variant_deck_complete holdem c = (occurrences-ranked 0 c deck_size, refl)
variant_deck_complete royal c = (occurrences-ranked 8 c deck_size, refl)

set-occurrences :
    (f : Card → ℕ) (i : ℕ) (v old : Card) (xs : List Card)
    → get_elem? xs i ≡ some old
    → sum_by f (set i v xs) + f old ≡ sum_by f xs + f v
set-occurrences f i v old [] h = cc
set-occurrences f zero v old (x ∷ xs) h = ground arith
set-occurrences f (suc i) v old (x ∷ xs) h = omega (arith, set-occurrences f i v old xs h)

get_elem?-set_ne :
    (i j : ℕ) (v : Card) (xs : List Card) → i ≢ j → get_elem? (set i v xs) j ≡ get_elem? xs j
get_elem?-set_ne i j v [] h = refl
get_elem?-set_ne zero zero v (x ∷ xs) h = absurd (h refl)
get_elem?-set_ne zero (suc j) v (x ∷ xs) h = refl
get_elem?-set_ne (suc i) zero v (x ∷ xs) h = refl
get_elem?-set_ne (suc i) (suc j) v (x ∷ xs) h = get_elem?-set_ne i j v xs (λ e. h (ap suc e))

swap-sum_by :
    (f : Card → ℕ) (i j : ℕ) (deck : List Card) → i ≢ j → sum_by f (swap i j deck) ≡ sum_by f deck
unfolding swap
swap-sum_by f i j deck ne = elim (Option-cases (get_elem? deck i)) [
  | inl e ↦ rw (e, swap)
  | inr (a, ea) ↦ elim (Option-cases (get_elem? deck j)) [
    | inl e ↦ rw (ea, swap, e)
    | inr (b, eb) ↦
        rw (ea, swap, eb)
          (omega (
            arith,
            set-occurrences f i b a deck ea,
            set-occurrences f j a b (set i b deck) (get_elem?-set_ne i j b deck ne ∙ eb),
          ))
  ]
]

set_same : (i : ℕ) (a : Card) (xs : List Card) → get_elem? xs i ≡ some a → set i a xs ≡ xs
set_same i a [] h = refl
set_same zero a (x ∷ xs) h = ground arith
set_same (suc i) a (x ∷ xs) h = ap (◌∷◌ x) (set_same i a xs h)

-- With `i` and `j` the same index the exchange changes nothing.
swap-sum_by_self :
    (f : Card → ℕ) (i : ℕ) (deck : List Card) → sum_by f (swap i i deck) ≡ sum_by f deck
unfolding swap
swap-sum_by_self f i deck = elim (Option-cases (get_elem? deck i)) [
  | inl e ↦ rw (e, swap)
  | inr (a, ea) ↦
      rw (ea, swap, ea) (rw (set_same i a deck ea) (ap (sum_by f) (set_same i a deck ea)))
]

swap-measure :
    (f : Card → ℕ) (i j : ℕ) (deck : List Card) → sum_by f (swap i j deck) ≡ sum_by f deck
swap-measure f i j deck = elim (ℕ_discrete i j) [
  | yes e ↦ rw (← e) (swap-sum_by_self f i deck)
  | no ne ↦ swap-sum_by f i j deck ne
]

shuffle_from-measure :
    (f : Card → ℕ) (intn : ℕ → ℕ) (i : ℕ) (deck : List Card)
    → sum_by f (shuffle_from intn i deck) ≡ sum_by f deck
unfolding shuffle_from
shuffle_from-measure f intn zero deck = refl
shuffle_from-measure f intn (suc i) deck =
    shuffle_from-measure f intn i (swap (suc i) (intn (suc i + 1)) deck)
    ∙ swap-measure f (suc i) (intn (suc i + 1)) deck

-- Whatever the random source answers, the shuffle keeps every card as often as it was there, and
-- the size of the deck.
pub secure_shuffle-keeps :
    (intn : ℕ → ℕ) (deck : List Card) (c : Card)
    → (occurrences c (secure_shuffle intn deck) ≡ occurrences c deck)
      × (length (secure_shuffle intn deck) ≡ length deck)
unfolding secure_shuffle
secure_shuffle-keeps intn deck c = (
  shuffle_from-measure _ intn (length deck - 1) deck,
  length_as_sum (shuffle_from intn (length deck - 1) deck)
      ∙ shuffle_from-measure (λ _. 1) intn (length deck - 1) deck
      ∙ sym (length_as_sum deck),
)
