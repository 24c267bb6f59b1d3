-- ===== src/Poker/Words.antt =====
-- card.go, eval.go and hand.go of backend/internal/poker: the English words for cards and hands.
use showdown.Base.{List, [], ◌∷◌, ◌++◌, ◌==◌, ltb, if◌then◌else◌, get_or}
use showdown.Base.Text.{Text, text}
use showdown.Poker.Card.{Card, Rank, rank, suit, ace}
use showdown.Poker.Eval.{
  Category, HandValue, ranks, high_card, one_pair, two_pair, three_of_a_kind, straight, flush,
  full_house, four_of_a_kind, straight_flush,
}

abbrev rank_names : List Text
rank_names =
    text "Two"
    ∷ text "Three"
    ∷ text "Four"
    ∷ text "Five"
    ∷ text "Six"
    ∷ text "Seven"
    ∷ text "Eight"
    ∷ text "Nine"
    ∷ text "Ten"
    ∷ text "Jack"
    ∷ text "Queen"
    ∷ text "King"
    ∷ text "Ace"
    ∷ []

abbrev rank_plurals : List Text
rank_plurals =
    text "Twos"
    ∷ text "Threes"
    ∷ text "Fours"
    ∷ text "Fives"
    ∷ text "Sixes"
    ∷ text "Sevens"
    ∷ text "Eights"
    ∷ text "Nines"
    ∷ text "Tens"
    ∷ text "Jacks"
    ∷ text "Queens"
    ∷ text "Kings"
    ∷ text "Aces"
    ∷ []

-- The ranks come from values of `Evaluate` and from cards that `description` tests, so they are at
-- most the ace, and the default is never read.
unfoldable pub rank_name : Rank → Text
rank_name r = get_or rank_names r []

unfoldable pub plural : Rank → Text
plural r = get_or rank_plurals r []

describe_as : Category → Rank → Rank → Text
unfolding rank_name plural
describe_as high_card r s = text "High Card, " ++ rank_name r
describe_as one_pair r s = text "Pair of " ++ plural r
describe_as two_pair r s = text "Two Pair, " ++ (plural r ++ (text " and " ++ plural s))
describe_as three_of_a_kind r s = text "Three of a Kind, " ++ plural r
describe_as straight r s = text "Straight, " ++ (rank_name r ++ text " High")
describe_as flush r s = text "Flush, " ++ (rank_name r ++ text " High")
describe_as full_house r s = text "Full House, " ++ (plural r ++ (text " over " ++ plural s))
describe_as four_of_a_kind r s = text "Four of a Kind, " ++ plural r
describe_as straight_flush r s =
    if r == ace
    then text "Royal Flush"
    else text "Straight Flush, " ++ (rank_name r ++ text " High")

-- `HandValue.Describe`.
unfoldable pub describe : HandValue → Text
unfolding describe_as ranks
describe h = describe_as h.category (get_or (ranks h) 0 0) (get_or (ranks h) 1 0)

describe_ordered : Card → Card → Text
unfolding rank_name
describe_ordered hi lo =
    if suit hi == suit lo
    then rank_name (rank hi) ++ (text "-" ++ (rank_name (rank lo) ++ text " suited"))
    else rank_name (rank hi) ++ text " high"

-- `DescribeHole`.
unfoldable pub describe_hole : Card → Card → Text
unfolding describe_ordered plural
describe_hole a b =
    if rank a == rank b
    then text "Pair of " ++ plural (rank a)
    else if ltb (rank a) (rank b)
    then describe_ordered b a
    else describe_ordered a b
