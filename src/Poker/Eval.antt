-- ===== src/Poker/Eval.antt =====
-- backend/internal/poker/eval.go: the value of five cards, and the best five of up to seven.
-- An array of five cards is a list of five; every rank is below 13.
use showdown.Base.{
  ℕ, zero, suc, ◌+◌, ◌-◌, ◌*◌, ◌/◌, ◌%◌, ◌^◌, Bool, true, false, ◌&&◌, ◌||◌, List, [], ◌∷◌, ◌++◌,
  Option, none, some, ltb, leb, ◌==◌, if◌then◌else◌, get_or, get_elem?, all, filter, map, modify,
  replicate, range_from, insertion_sort, reverse,
}
use showdown.Base.Int.{ℤ, pos, negsuc}
use showdown.Poker.Card.{Card, Rank, valid, rank, suit, ace, five, two}
pub mod Best

pub data Category : Type 0 where
  high_card one_pair two_pair three_of_a_kind straight : Category
  flush full_house four_of_a_kind straight_flush : Category

-- The constants count from zero.
abbrev pub category_index : Category → ℕ
category_index high_card = 0
category_index one_pair = 1
category_index two_pair = 2
category_index three_of_a_kind = 3
category_index straight = 4
category_index flush = 5
category_index full_house = 6
category_index four_of_a_kind = 7
category_index straight_flush = 8

pub record HandValue : Type 0 where
  pub category : Category
  pub rank : ℕ
  pub best : List Card

-- The zero value, from which the loops of `Evaluate` start.
abbrev pub no_value : HandValue
no_value = record { category = high_card; rank = 0; best = replicate 5 0 }

-- `HandValue.Compare`.
unfoldable pub compare_values : HandValue → HandValue → ℤ
compare_values h o =
    if ltb h.rank o.rank then negsuc 0 else if ltb o.rank h.rank then pos 1 else pos 0

-- Five ranks of four bits under the category. Each rank is below 16, so the bits that the source
-- joins by `|` do not meet and the sum is the same number.
unfoldable pub encode : Category → List Rank → ℕ
encode cat r =
    category_index cat * 2 ^ 20
    + get_or r 0 0 * 2 ^ 16
    + get_or r 1 0 * 2 ^ 12
    + get_or r 2 0 * 2 ^ 8
    + get_or r 3 0 * 2 ^ 4
    + get_or r 4 0

-- `ranks`: a shift and a mask of four bits.
unfoldable pub ranks : HandValue → List Rank
ranks h =
    h.rank / 2 ^ 16 % 16
    ∷ h.rank / 2 ^ 12 % 16
    ∷ h.rank / 2 ^ 8 % 16
    ∷ h.rank / 2 ^ 4 % 16
    ∷ h.rank % 16
    ∷ []

abbrev pub two_ranked : Category → Bool
two_ranked two_pair = true
two_ranked full_house = true
two_ranked _ = false

unfoldable pub significant : HandValue → List Rank
unfolding ranks
significant h =
    if two_ranked h.category
    then get_or (ranks h) 0 0 ∷ get_or (ranks h) 1 0 ∷ []
    else get_or (ranks h) 0 0 ∷ []

-- The sort at the head of `evaluate5`: a card moves past one of lower rank.
unfoldable pub sort_desc : List Card → List Card
unfolding insertion_sort
sort_desc = insertion_sort (λ c d. ltb (rank d) (rank c))

-- One test of the loop in `straightTop`: two neighbours of equal rank.
abbrev pub has_pair : List Card → Bool
has_pair [] = false
has_pair (c ∷ []) = false
has_pair (c ∷ d ∷ cs) = rank d == rank c || has_pair (d ∷ cs)

-- `straightTop`; the difference of the ranks is that of bytes.
unfoldable pub straight_top : List Card → Option Rank
straight_top c =
    if has_pair c
    then none
    else if (first + 256 - fifth) % 256 == 4
    then some first
    else if first == ace && (second == five && fifth == two)
    then some five
    else none
  where
    first : Rank
    first = rank (get_or c 0 0)

    second : Rank
    second = rank (get_or c 1 0)

    fifth : Rank
    fifth = rank (get_or c 4 0)

unfoldable pub is_flush : List Card → Bool
is_flush c =
    suit (get_or c 0 0) == suit (get_or c 1 0)
    && (suit (get_or c 0 0) == suit (get_or c 2 0)
        && (suit (get_or c 0 0) == suit (get_or c 3 0)
            && suit (get_or c 0 0) == suit (get_or c 4 0)))

pub record Group : Type 0 where
  pub rank : Rank
  pub count : ℕ

-- `counts[card.Rank()]++` for every card, each below 52 by the test in `evaluate`.
unfoldable pub count_ranks : List Card → List ℕ → List ℕ
count_ranks [] counts = counts
count_ranks (c ∷ cs) counts = count_ranks cs (modify (rank c) suc counts)

-- The loop from the ace down to the two, over the ranks below `n`.
unfoldable pub collect_groups : List ℕ → ℕ → List Group
collect_groups counts zero = []
collect_groups counts (suc r) =
    let rest = collect_groups counts r in
    if ltb 0 (get_or counts r 0)
    then record { rank = r; count = get_or counts r 0 } ∷ rest
    else rest

unfoldable pub group_ranks : List Card → List Group
unfolding count_ranks collect_groups insertion_sort
group_ranks c =
    insertion_sort (λ g k. ltb k.count g.count) (collect_groups (count_ranks c (replicate 13 0)) 13)

-- `groups[i]`: five cards have all the groups that a branch below reads.
abbrev pub group_at : List Group → ℕ → Group
group_at gs i = get_or gs i (record { rank = 0; count = 0 })

abbrev pub is_some {ℓ} : {A : Type ℓ} → Option A → Bool
is_some none = false
is_some (some a) = true

-- The switch of `evaluate5` on sorted cards: the category and the ranks that break ties.
unfoldable pub classify : List Card → Bool → Option Rank → List Group → Category × List Rank
classify c is_fl top gs =
    if is_some top && is_fl
    then (straight_flush, top_rank ∷ [])
    else if count_at 0 == 4
    then (four_of_a_kind, rank_at 0 ∷ rank_at 1 ∷ [])
    else if count_at 0 == 3 && count_at 1 == 2
    then (full_house, rank_at 0 ∷ rank_at 1 ∷ [])
    else if is_fl
    then (flush, map rank c)
    else if is_some top
    then (straight, top_rank ∷ [])
    else if count_at 0 == 3
    then (three_of_a_kind, rank_at 0 ∷ rank_at 1 ∷ rank_at 2 ∷ [])
    else if count_at 0 == 2 && count_at 1 == 2
    then (two_pair, rank_at 0 ∷ rank_at 1 ∷ rank_at 2 ∷ [])
    else if count_at 0 == 2
    then (one_pair, rank_at 0 ∷ rank_at 1 ∷ rank_at 2 ∷ rank_at 3 ∷ [])
    else (high_card, map rank c)
  where
    top_rank : Rank
    top_rank = elim top [ none ↦ 0 | some r ↦ r ]

    rank_at : ℕ → Rank
    rank_at i = (group_at gs i).rank

    count_at : ℕ → ℕ
    count_at i = (group_at gs i).count

-- The cards of each group in turn.
abbrev pub by_group : List Group → List Card → List Card
by_group [] c = []
by_group (g ∷ gs) c = filter (λ d. rank d == g.rank) c ++ by_group gs c

-- `Best`: the wheel's ace goes last.
unfoldable pub order_best : List Card → Option Rank → List Group → List Card
order_best c none gs = by_group gs c
order_best c (some top) gs =
    if top == five
    then get_or c 1 0 ∷ get_or c 2 0 ∷ get_or c 3 0 ∷ get_or c 4 0 ∷ get_or c 0 0 ∷ []
    else c

value_of : List Card → Option Rank → List Group → Category × List Rank → HandValue
unfolding encode order_best
value_of c top gs (cat, r) = record {
  category = cat;
  rank = encode cat r;
  best = order_best c top gs;
}

evaluate_sorted : List Card → HandValue
unfolding is_flush straight_top group_ranks classify value_of
evaluate_sorted c =
    let top = straight_top c in
    let gs = group_ranks c in value_of c top gs (classify c (is_flush c) top gs)

unfoldable pub evaluate5 : List Card → HandValue
unfolding sort_desc evaluate_sorted
evaluate5 c = evaluate_sorted (sort_desc c)

-- The cards but those at the indices `a` and `b`; `i` is the index of the first card.
abbrev pub without : ℕ → ℕ → ℕ → List Card → List Card
without a b i [] = []
without a b i (c ∷ cs) =
    if i == a || i == b then without a b (suc i) cs else c ∷ without a b (suc i) cs

-- `if v := evaluate5(five); v.Rank > best.Rank { best = v }` over all the choices.
abbrev pub best_of : List (List Card) → HandValue → HandValue
best_of [] best = best
best_of (cs ∷ rest) best =
    let v = evaluate5 cs in best_of rest (if ltb best.rank v.rank then v else best)

-- The choices of the loop over `drop`.
abbrev pub drop_one : List Card → List (List Card)
drop_one cards = map (λ d. without d d 0 cards) (range_from 0 6)

-- The choices of the loops over `a` and `b`, from `a` on with `n` values left.
abbrev pub drop_two_from : ℕ → ℕ → List Card → List (List Card)
drop_two_from a zero cards = []
drop_two_from a (suc n) cards =
    map (λ b. without a b 0 cards) (range_from (suc a) n) ++ drop_two_from (suc a) n cards

-- `Evaluate` of cards below 52; `none` is its panic.
unfoldable pub evaluate_valid : List Card → Option HandValue
evaluate_valid (a ∷ b ∷ c ∷ d ∷ e ∷ []) = some (evaluate5 (a ∷ b ∷ c ∷ d ∷ e ∷ []))
evaluate_valid (a ∷ b ∷ c ∷ d ∷ e ∷ f ∷ []) =
    some (best_of (drop_one (a ∷ b ∷ c ∷ d ∷ e ∷ f ∷ [])) no_value)
evaluate_valid (a ∷ b ∷ c ∷ d ∷ e ∷ f ∷ g ∷ []) =
    some (best_of (drop_two_from 0 7 (a ∷ b ∷ c ∷ d ∷ e ∷ f ∷ g ∷ [])) no_value)
evaluate_valid _ = none

-- `Evaluate`: every card is in some choice of five, where `counts[card.Rank()]` panics for a card
-- from 52 on. The index is an argument of type ℕ, so the test stands here and not in `count_ranks`.
unfoldable pub evaluate : List Card → Option HandValue
unfolding evaluate_valid
evaluate cards = if all valid cards then evaluate_valid cards else none
