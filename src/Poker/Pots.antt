-- ===== src/Poker/Pots.antt =====
-- backend/internal/poker/pots.go: the main pot and the side pots.
use showdown.Base.{
  ℕ, ◌+◌, ◌-◌, min, Bool, true, false, not, ◌&&◌, List, [], ◌∷◌, ◌++◌, map, ltb, leb, ◌==◌,
  if◌then◌else◌, filter, sum_by, sort_by, Option, none, some,
}
pub mod Levels
pub mod Conserve
pub mod Eligible

pub record Pot : Type 0 where
  pub amount : ℕ
  pub eligible : List ℕ

pub record PotPlayer : Type 0 where
  pub seat : ℕ
  -- chips contributed to completed streets
  pub total : ℕ
  pub folded : Bool
  pub all_in : Bool

-- What the first loop collects: the largest contribution that is still in the hand, ...
unfoldable pub max_live : List PotPlayer → ℕ → ℕ
max_live [] m = m
max_live (p ∷ ps) m = max_live ps (if p.folded then m else if ltb m p.total then p.total else m)

-- ... the sum of all contributions, ...
abbrev pub contributed : List PotPlayer → ℕ
contributed = sum_by (λ p. p.total)

-- ... and the contributions of the players who are all in.
abbrev pub all_in_totals : List PotPlayer → List ℕ
all_in_totals ps = map (λ p. p.total) (filter (λ p. not p.folded && (p.all_in && ltb 0 p.total)) ps)

-- The loop that drops repeated levels. It writes into the slice that it reads, but never ahead of
-- the element that it compares with.
abbrev pub dedupe_after : ℕ → List ℕ → List ℕ
dedupe_after prev [] = []
dedupe_after prev (l ∷ ls) = if l == prev then dedupe_after l ls else l ∷ dedupe_after l ls

abbrev pub dedupe : List ℕ → List ℕ
dedupe [] = []
dedupe (l ∷ ls) = l ∷ dedupe_after l ls

abbrev pub last : ℕ → List ℕ → ℕ
last d [] = d
last d (x ∷ xs) = last x xs

-- `if len(levels) == 0 || levels[len(levels)-1] < maxLive`
abbrev pub cap_levels : ℕ → List ℕ → List ℕ
cap_levels m [] = m ∷ []
cap_levels m (l ∷ ls) = if ltb (last l ls) m then (l ∷ ls) ++ m ∷ [] else l ∷ ls

unfoldable pub levels : List PotPlayer → List ℕ
unfolding max_live
levels ps = cap_levels (max_live ps 0) (dedupe (sort_by (λ l. l) (all_in_totals ps)))

-- The chips between two levels; `prev` is never above `level`.
abbrev pub slice : List PotPlayer → ℕ → ℕ → ℕ
slice ps prev level = sum_by (λ p. min p.total level - min p.total prev) ps

unfoldable pub eligible_at : List PotPlayer → ℕ → List ℕ
eligible_at ps level =
    sort_by (λ s. s) (map (λ p. p.seat) (filter (λ p. not p.folded && leb level p.total) ps))

-- The loop over the levels; an empty slice makes no pot.
unfoldable pub layers : List PotPlayer → ℕ → List ℕ → List Pot
unfolding eligible_at
layers ps prev [] = []
layers ps prev (level ∷ ls) =
    let rest = layers ps level ls in
    if slice ps prev level == 0
    then rest
    else record { amount = slice ps prev level; eligible = eligible_at ps level } ∷ rest

unfoldable pub contenders : List PotPlayer → List ℕ
contenders ps = sort_by (λ s. s) (map (λ p. p.seat) (filter (λ p. not p.folded) ps))

-- `pots[len(pots)-1].Amount += rest`
abbrev pub add_to_last : ℕ → Pot → List Pot → List Pot
add_to_last rest p [] = record p { amount = p.amount + rest } ∷ []
add_to_last rest p (q ∷ qs) = p ∷ add_to_last rest q qs

-- The dead money of `rest` chips.
unfoldable pub add_dead : List PotPlayer → ℕ → List Pot → List Pot
unfolding contenders
add_dead ps rest [] = record { amount = rest; eligible = contenders ps } ∷ []
add_dead ps rest (p ∷ pots) = add_to_last rest p pots

abbrev pub amounts : List Pot → ℕ
amounts = sum_by (λ p. p.amount)

unfoldable pub build_pots : List PotPlayer → List Pot
unfolding layers levels add_dead
build_pots ps =
    let pots = layers ps 0 (levels ps) in
    let rest = contributed ps - amounts pots in
    if contributed ps == 0 then [] else if ltb 0 rest then add_dead ps rest pots else pots
