-- ===== src/Poker/Hand/Scan.antt =====
-- The loops that go round the table see every player.
use showdown.Base.{
  ℕ, zero, suc, ◌+◌, ◌%◌, ◌≤◌, ◌<◌, ◌≡◌, refl, sym, ◌⊎◌, inl, inr, Bool, true, List, [], ◌∷◌, some,
  arith, ltb, leb, length, get_elem?, any, Bool-cases, Option-cases, ltb→lt,
}
use mathlib.Core.Path.{subst}
use native.Mathlib.Decide.{ℕ_discrete}
use native.Mathlib.Nat.{mod-eq_of_lt, mod_self}
use showdown.Poker.Types.{Player}
use showdown.Poker.Hand.State.{scan, next}

-- The index `j` is reached from `i` within `n` rounds.
abbrev pub Reached : ℕ → ℕ → ℕ → ℕ → Type 0
Reached len i n j = ((i ≤ j) × (j < i + n)) ⊎ ((j < i) × (len + j < i + n))

pub get-lt : {A : Type 0} (xs : List A) (i : ℕ) (x : A) → get_elem? xs i ≡ some x → i < length xs
get-lt [] i x h = cc
get-lt (y ∷ ys) zero x h = omega arith
get-lt (y ∷ ys) (suc i) x h = omega (arith, get-lt ys i x h)

pub next-lt : (ps : List Player) (i : ℕ) → 0 < length ps → next ps i < length ps
next-lt ps i h = omega arith

pub next-Reached :
    (len i n j : ℕ)
    → i < len
    → j < len
    → (i ≡ j → ⊥)
    → Reached len i (suc n) j
    → Reached len ((i + 1) % len) n j
next-Reached len i n j h g ne r = elim (Bool-cases (ltb (i + 1) len)) [
  | inl e ↦
      let s : (i + 1) % len ≡ i + 1 = mod-eq_of_lt (ltb→lt (i + 1) len e) in rw s (ground arith)
  | inr e ↦
      let w : i + 1 ≡ len = ground arith in
      let s : (i + 1) % len ≡ 0 = rw w (mod_self len) in rw s (ground arith)
]

-- A loop that may go round to a player who passes the test stops at one.
scan-reaches :
    (t : Player → Bool) (ps : List Player) (i n j : ℕ) (p : Player)
    → i < length ps
    → j < length ps
    → Reached (length ps) i n j
    → get_elem? ps j ≡ some p
    → t p ≡ true
    → (r : ℕ) × (scan t ps i n ≡ some r)
unfolding scan
scan-reaches t ps i zero j p h g r e y = absurd (omega arith)
scan-reaches t ps i (suc n) j p h g r0 e y = elim (ℕ_discrete i j) [
  | yes same ↦
      let here : get_elem? ps i ≡ some p = subst (λ k. get_elem? ps k ≡ some p) (sym same) e in
      rw (here, scan, y) (_, refl)
  | no ne ↦
      let (r, f) =
        scan-reaches t ps (next ps i) n j p (next-lt ps i (omega arith)) g
          (next-Reached (length ps) i n j h g ne r0) e y in
      elim (Option-cases (get_elem? ps i)) [
        | inl q ↦ rw (q, scan) (r, f)
        | inr (x, q) ↦ elim (Bool-cases (t x)) [
          | inl b ↦ rw (q, scan, b) (_, refl)
          | inr b ↦ rw (q, scan, b) (r, f)
        ]
      ]
]

any-index :
    (t : Player → Bool) (ps : List Player)
    → any t ps ≡ true
    → (j : ℕ) × (p : Player) × (j < length ps) × (get_elem? ps j ≡ some p) × (t p ≡ true)
any-index t [] h = cc
any-index t (p ∷ ps) h = elim (Bool-cases (t p)) [
  | inl e ↦ (0, p, omega arith, refl, e)
  | inr e ↦ let (j, q, lt, g, y) = any-index t ps (rw e at h) in (suc j, q, omega arith, g, y)
]

-- A whole round reaches every index.
pub round-Reached : (len i j : ℕ) → j < len → Reached len i len j
round-Reached len i j lt = elim (Bool-cases (leb i j)) [
  | inl e ↦ ground arith
  | inr e ↦ ground arith
]

-- If some player passes the test, a whole round stops at one.
pub scan-found :
    (t : Player → Bool) (ps : List Player) (i : ℕ)
    → i < length ps
    → any t ps ≡ true
    → (r : ℕ) × (scan t ps i (length ps) ≡ some r)
scan-found t ps i h some_one =
    let (j, p, lt, e, y) = any-index t ps some_one in
    scan-reaches t ps i (length ps) j p h lt (round-Reached (length ps) i j lt) e y

-- Where a loop stops there is a player who passes the test.
pub scan_sound :
    (t : Player → Bool) (ps : List Player) (i n r : ℕ)
    → scan t ps i n ≡ some r
    → (p : Player) × (get_elem? ps r ≡ some p) × (t p ≡ true)
unfolding scan
scan_sound t ps i zero r h = cc
scan_sound t ps i (suc n) r h = elim (Option-cases (get_elem? ps i)) [
  | inl q ↦ scan_sound t ps (next ps i) n r (rw (q, scan) at h)
  | inr (x, q) ↦ elim (Bool-cases (t x)) [
    | inl b ↦ let same : i ≡ r = cc (rw (q, scan, b) at h) in (x, rw (← same) q, b)
    | inr b ↦ scan_sound t ps (next ps i) n r (rw (q, scan, b) at h)
  ]
]
