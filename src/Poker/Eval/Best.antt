-- ===== src/Poker/Eval/Best.antt =====
-- `Evaluate` takes the best of all the five-card hands.
use showdown.Base.{
  ℕ, zero, suc, ◌≤◌, ◌≡◌, refl, ◌⊎◌, inl, inr, ◌∙◌, List, [], ◌∷◌, ◌++◌, map, reverse, ap, some,
  arith, ltb, length, Bool-cases, max, all, true,
}
use mathlib.Core.List.{reverse-cons}
use showdown.Poker.Card.{Card, valid}
use showdown.Poker.Eval.{HandValue, evaluate5, no_value, best_of, evaluate, evaluate_valid}

-- The sublists of `k` elements, a description of "k cards out of these" that is independent of
-- the loops.
abbrev pub choose {ℓ} : {A : Type ℓ} → ℕ → List A → List (List A)
choose zero xs = [] ∷ []
choose (suc k) [] = []
choose (suc k) (x ∷ xs) = map (◌∷◌ x) (choose k xs) ++ choose (suc k) xs

-- The greatest rank among five-card hands.
abbrev pub top_rank : List (List Card) → ℕ
top_rank [] = 0
top_rank (cs ∷ rest) = max (evaluate5 cs).rank (top_rank rest)

best_of-rank :
    (hands : List (List Card)) (best : HandValue)
    → (best_of hands best).rank ≡ max best.rank (top_rank hands)
best_of-rank [] best = omega arith
best_of-rank (cs ∷ rest) best =
    ground (arith, best_of-rank rest (evaluate5 cs), best_of-rank rest best)

best_of-member :
    (hands : List (List Card)) (best : HandValue)
    → (best_of hands best ≡ best) ⊎ ((five : List Card) × (best_of hands best ≡ evaluate5 five))
best_of-member [] best = inl refl
best_of-member (cs ∷ rest) best = elim (Bool-cases (ltb best.rank (evaluate5 cs).rank)) [
  | inl e ↦ rw e (elim (best_of-member rest (evaluate5 cs)) [ inl q ↦ inr (cs, q) | inr q ↦ inr q ])
  | inr e ↦ rw e (best_of-member rest best)
]

top_rank-append : (xs ys : List (List Card)) → top_rank (xs ++ ys) ≡ max (top_rank xs) (top_rank ys)
top_rank-append [] ys = omega arith
top_rank-append (x ∷ xs) ys = omega (arith, top_rank-append xs ys)

-- The loops run through the choices backwards.
top_rank-reverse : (xs : List (List Card)) → top_rank (reverse xs) ≡ top_rank xs
top_rank-reverse [] = refl
top_rank-reverse (x ∷ xs) =
    ap top_rank (reverse-cons x xs)
    ∙ omega (arith, top_rank-append (reverse xs) (x ∷ []), top_rank-reverse xs)

best_of-choose :
    (cards : List Card)
    → (best_of (reverse (choose 5 cards)) no_value).rank ≡ top_rank (choose 5 cards)
best_of-choose cards =
    omega
      (arith, best_of-rank (reverse (choose 5 cards)) no_value, top_rank-reverse (choose 5 cards))

evaluate_valid-best :
    (cards : List Card)
    → 5 ≤ length cards
    → length cards ≤ 7
    → (v : HandValue) × (evaluate_valid cards ≡ some v) × (v.rank ≡ top_rank (choose 5 cards))
unfolding evaluate_valid
evaluate_valid-best (a ∷ b ∷ c ∷ d ∷ e ∷ []) h k = (_, refl, omega arith)
evaluate_valid-best (a ∷ b ∷ c ∷ d ∷ e ∷ f ∷ []) h k =
    (_, refl, best_of-choose (a ∷ b ∷ c ∷ d ∷ e ∷ f ∷ []))
evaluate_valid-best (a ∷ b ∷ c ∷ d ∷ e ∷ f ∷ g ∷ []) h k =
    (_, refl, best_of-choose (a ∷ b ∷ c ∷ d ∷ e ∷ f ∷ g ∷ []))
evaluate_valid-best [] h k = absurd (omega arith)
evaluate_valid-best (a ∷ []) h k = absurd (omega arith)
evaluate_valid-best (a ∷ b ∷ []) h k = absurd (omega arith)
evaluate_valid-best (a ∷ b ∷ c ∷ []) h k = absurd (omega arith)
evaluate_valid-best (a ∷ b ∷ c ∷ d ∷ []) h k = absurd (omega arith)
evaluate_valid-best (a ∷ b ∷ c ∷ d ∷ e ∷ f ∷ g ∷ i ∷ r) h k = absurd (omega arith)

-- From five, six or seven cards of the deck `Evaluate` returns a value, whose rank is the greatest
-- among all five-card hands that can be chosen from them.
pub evaluate-best :
    (cards : List Card)
    → 5 ≤ length cards
    → length cards ≤ 7
    → all valid cards ≡ true
    → (v : HandValue) × (evaluate cards ≡ some v) × (v.rank ≡ top_rank (choose 5 cards))
unfolding evaluate
evaluate-best cards h k ok_cards =
    let (v, e, best) = evaluate_valid-best cards h k in rw ok_cards (v, e, best)
