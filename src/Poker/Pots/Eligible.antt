-- ===== src/Poker/Pots/Eligible.antt =====
-- Who may win a pot: players that did not fold, and at least one as long as somebody is left.
use showdown.Base.{
  ℕ, ◌-◌, ◌≤◌, ◌≡◌, ◌≢◌, ◌⊎◌, inl, inr, Bool, true, false, not, ◌&&◌, List, [], ◌∷◌, arith, ltb,
  leb, ◌==◌, map, filter, any, All, All-append, All-insertion_sort, insertion_sort-ne-nil, sort_by,
  Bool-cases,
}
use showdown.Poker.Pots.Levels.{dedupe_after-All}
use showdown.Poker.Pots.{
  Pot, PotPlayer, max_live, all_in_totals, contributed, dedupe, last, cap_levels, levels, slice,
  eligible_at, layers, contenders, add_to_last, add_dead, amounts, build_pots,
}

-- Somebody with this seat is still in the hand.
abbrev pub is_live : List PotPlayer → ℕ → Bool
is_live ps s = any (λ p. not p.folded && p.seat == s) ps

abbrev pub IsContended : List PotPlayer → Pot → Type 0
IsContended ps pot = (pot.eligible ≢ []) × All (λ s. is_live ps s ≡ true) pot.eligible

abbrev reaches : ℕ → PotPlayer → Bool
reaches level p = not p.folded && leb level p.total

-- The largest live contribution is somebody's.
max_live-reached :
    (ps : List PotPlayer) (m level : ℕ)
    → level ≤ max_live ps m
    → (level ≤ m) ⊎ (any (reaches level) ps ≡ true)
unfolding max_live
max_live-reached [] m level h = inl h
max_live-reached (p ∷ ps) m level h =
    ground (arith, max_live-reached ps m level, max_live-reached ps p.total level)

reaches_zero : (ps : List PotPlayer) → any (λ p. not p.folded) ps ≡ true → any (reaches 0) ps ≡ true
reaches_zero [] h = cc
reaches_zero (p ∷ ps) h = ground (arith, reaches_zero ps)

seats_of : (PotPlayer → Bool) → List PotPlayer → List ℕ
seats_of t ps = map (λ p. p.seat) (filter t ps)

seats_of-ne-nil :
    (t : PotPlayer → Bool) (ps : List PotPlayer) → any t ps ≡ true → seats_of t ps ≢ []
unfolding seats_of
seats_of-ne-nil t [] h = cc
seats_of-ne-nil t (p ∷ ps) h = elim (Bool-cases (t p)) [
  | inl e ↦ rw e (λ k. cc)
  | inr e ↦ rw e (seats_of-ne-nil t ps (rw e at h))
]

is_live-cons :
    (p : PotPlayer) (ps : List PotPlayer) (ss : List ℕ)
    → All (λ s. is_live ps s ≡ true) ss
    → All (λ s. is_live (p ∷ ps) s ≡ true) ss
is_live-cons p ps [] h = tt
is_live-cons p ps (s ∷ ss) h = (ground (arith, h.0), is_live-cons p ps ss h.1)

seats_of-live :
    (t : PotPlayer → Bool) (ps : List PotPlayer)
    → ((p : PotPlayer) → t p ≡ true → p.folded ≡ false)
    → All (λ s. is_live ps s ≡ true) (seats_of t ps)
unfolding seats_of
seats_of-live t [] h = tt
seats_of-live t (p ∷ ps) h = elim (Bool-cases (t p)) [
  | inl e ↦ rw e (ground (arith, h p e), is_live-cons p ps _ (seats_of-live t ps h))
  | inr e ↦ rw e (is_live-cons p ps _ (seats_of-live t ps h))
]

seats-IsContended :
    (t : PotPlayer → Bool) (ps : List PotPlayer)
    → any t ps ≡ true
    → ((p : PotPlayer) → t p ≡ true → p.folded ≡ false)
    → (amount : ℕ)
    → IsContended ps (record { amount = amount; eligible = sort_by (λ s. s) (seats_of t ps) })
seats-IsContended t ps some_one live amount = (
  insertion_sort-ne-nil _ _ (seats_of-ne-nil t ps some_one),
  All-insertion_sort _ _ _ (seats_of-live t ps live),
)

module _ (ps : List PotPlayer) (alive : any (λ p. not p.folded) ps ≡ true) where
  level-IsContended :
      (level amount : ℕ)
      → level ≤ max_live ps 0
      → IsContended ps (record { amount = amount; eligible = eligible_at ps level })
  unfolding eligible_at seats_of
  level-IsContended level amount h =
      seats-IsContended (reaches level) ps (reached (max_live-reached ps 0 level h))
        (λ p e. ground (arith, e)) amount
    where
      reached : (level ≤ 0) ⊎ (any (reaches level) ps ≡ true) → any (reaches level) ps ≡ true
      reached (inl z) = let e : level ≡ 0 = omega arith in rw e (reaches_zero ps alive)
      reached (inr r) = r

  layers-IsContended :
      (prev : ℕ) (ls : List ℕ)
      → All (λ l. l ≤ max_live ps 0) ls
      → All (IsContended ps) (layers ps prev ls)
  unfolding layers
  layers-IsContended prev [] h = tt
  layers-IsContended prev (l ∷ ls) h = elim (Bool-cases (slice ps prev l == 0)) [
    | inl e ↦ rw (e, layers) (layers-IsContended l ls h.1)
    | inr e ↦
        rw (e, layers) (level-IsContended l (slice ps prev l) h.0, layers-IsContended l ls h.1)
  ]

  contenders-IsContended :
      (amount : ℕ) → IsContended ps (record { amount = amount; eligible = contenders ps })
  unfolding contenders seats_of
  contenders-IsContended amount =
      seats-IsContended (λ p. not p.folded) ps alive (λ p e. ground (arith, e)) amount

  add_to_last-IsContended :
      (rest : ℕ) (p : Pot) (pots : List Pot)
      → All (IsContended ps) (p ∷ pots)
      → All (IsContended ps) (add_to_last rest p pots)
  add_to_last-IsContended rest p [] h = h
  add_to_last-IsContended rest p (q ∷ qs) h = (h.0, add_to_last-IsContended rest q qs h.1)

  add_dead-IsContended :
      (rest : ℕ) (pots : List Pot)
      → All (IsContended ps) pots
      → All (IsContended ps) (add_dead ps rest pots)
  unfolding add_dead
  add_dead-IsContended rest [] h = (contenders-IsContended rest, tt)
  add_dead-IsContended rest (p ∷ pots) h = add_to_last-IsContended rest p pots h

max_live-grows : (ps : List PotPlayer) (m : ℕ) → m ≤ max_live ps m
unfolding max_live
max_live-grows [] m = omega arith
max_live-grows (p ∷ ps) m = ground (arith, max_live-grows ps m, max_live-grows ps p.total)

all_in_totals-le : (ps : List PotPlayer) (m : ℕ) → All (λ l. l ≤ max_live ps m) (all_in_totals ps)
unfolding max_live
all_in_totals-le [] m = tt
all_in_totals-le (p ∷ ps) m = elim (Bool-cases (not p.folded && (p.all_in && ltb 0 p.total))) [
  | inl e ↦
      rw e
        (ground (arith, e, max_live-grows ps m, max_live-grows ps p.total), all_in_totals-le ps _)
  | inr e ↦ rw e (all_in_totals-le ps _)
]

dedupe-All : (P : ℕ → Type 0) (ls : List ℕ) → All P ls → All P (dedupe ls)
dedupe-All P [] h = tt
dedupe-All P (l ∷ ls) h = (h.0, dedupe_after-All P l ls h.1)

cap_levels-All : (P : ℕ → Type 0) (m : ℕ) (ls : List ℕ) → P m → All P ls → All P (cap_levels m ls)
cap_levels-All P m [] pm h = (pm, tt)
cap_levels-All P m (l ∷ ls) pm h = elim (Bool-cases (ltb (last l ls) m)) [
  | inl e ↦ rw e (h.0, All-append P ls (m ∷ []) h.1 (pm, tt))
  | inr e ↦ rw e h
]

levels-le : (ps : List PotPlayer) → All (λ l. l ≤ max_live ps 0) (levels ps)
unfolding levels
levels-le ps =
    cap_levels-All (λ l. l ≤ max_live ps 0) (max_live ps 0) _ (omega arith)
      (dedupe-All (λ l. l ≤ max_live ps 0) _
        (All-insertion_sort (λ l. l ≤ max_live ps 0) _ (all_in_totals ps) (all_in_totals-le ps 0)))

-- As long as somebody did not fold, every pot can be won by at least one player, and only by
-- players who did not fold.
pub build_pots-IsContended :
    (ps : List PotPlayer) → any (λ p. not p.folded) ps ≡ true → All (IsContended ps) (build_pots ps)
unfolding build_pots
build_pots-IsContended ps alive =
    let base = layers-IsContended ps alive 0 (levels ps) (levels-le ps) in
    let rest = contributed ps - amounts (layers ps 0 (levels ps)) in
    elim (Bool-cases (contributed ps == 0)) [
      | inl e ↦ rw e tt
      | inr e ↦ elim (Bool-cases (ltb 0 rest)) [
        | inl f ↦ rw (e, f) (add_dead-IsContended ps alive rest _ base)
        | inr f ↦ rw (e, f) base
      ]
    ]
