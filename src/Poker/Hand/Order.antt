-- ===== src/Poker/Hand/Order.antt =====
-- hand.go: the loop of `showdownOrder` passes each player who did not fold, and no other.
use showdown.Base.{
  ℕ, zero, suc, ◌<◌, ◌≡◌, sym, inl, inr, Bool, true, List, [], ◌∷◌, some, arith, ◌==◌, ◌&&◌, length,
  get_elem?, any, All, Bool-cases, Option-cases,
}
use mathlib.Core.Path.{subst}
use native.Mathlib.Decide.{ℕ_discrete}
use showdown.Poker.Types.{Player}
use showdown.Poker.Hand.State.{next, live, clockwise}
use showdown.Poker.Hand.Show.{live_seats, mem}
use showdown.Poker.Hand.Scan.{Reached, next-lt, next-Reached}

-- Somebody who did not fold sits there.
abbrev pub live_at : List Player → ℕ → Bool
live_at ps s = any (λ p. live p && p.seat == s) ps

get-live_at :
    (ps : List Player) (i : ℕ) (p : Player)
    → get_elem? ps i ≡ some p
    → live p ≡ true
    → live_at ps p.seat ≡ true
get-live_at [] i p h l = cc
get-live_at (q ∷ ps) zero p h l = ground (arith, h, l)
get-live_at (q ∷ ps) (suc i) p h l = ground (arith, get-live_at ps i p h l)

-- Only players who did not fold are in the order.
pub live_seats-only :
    (ps : List Player) (is : List ℕ) → All (λ s. live_at ps s ≡ true) (live_seats ps is)
live_seats-only ps [] = tt
live_seats-only ps (i ∷ is) = elim (Option-cases (get_elem? ps i)) [
  | inl e ↦ rw (e, live_seats) (live_seats-only ps is)
  | inr (p, e) ↦ elim (Bool-cases (live p)) [
    | inl l ↦ rw (e, live_seats, l) (get-live_at ps i p e l, live_seats-only ps is)
    | inr l ↦ rw (e, live_seats, l) (live_seats-only ps is)
  ]
]

mem-live_seats :
    (ps : List Player) (is : List ℕ) (j : ℕ) (p : Player)
    → mem j is ≡ true
    → get_elem? ps j ≡ some p
    → live p ≡ true
    → mem p.seat (live_seats ps is) ≡ true
mem-live_seats ps [] j p m e l = cc
mem-live_seats ps (i ∷ is) j p m e l = elim (ℕ_discrete i j) [
  | yes same ↦
      let here : get_elem? ps i ≡ some p = subst (λ k. get_elem? ps k ≡ some p) (sym same) e in
      rw (here, live_seats, l) (ground arith)
  | no ne ↦
      let later = mem-live_seats ps is j p (ground (arith, m)) e l in
      elim (Option-cases (get_elem? ps i)) [
        | inl f ↦ rw (f, live_seats) later
        | inr (q, f) ↦ elim (Bool-cases (live q)) [
          | inl k ↦ rw (f, live_seats, k) (ground (arith, later))
          | inr k ↦ rw (f, live_seats, k) later
        ]
      ]
]

mem-clockwise :
    (ps : List Player) (i n j : ℕ)
    → i < length ps
    → j < length ps
    → Reached (length ps) i n j
    → mem j (clockwise ps i n) ≡ true
mem-clockwise ps i zero j h g r = absurd (omega arith)
mem-clockwise ps i (suc n) j h g r = elim (ℕ_discrete i j) [
  | yes same ↦ ground arith
  | no ne ↦
      let rest =
        mem-clockwise ps (next ps i) n j (next-lt ps i (omega arith)) g
          (next-Reached (length ps) i n j h g ne r) in
      ground (arith, rest)
]

-- A whole round from any index passes every player who did not fold.
pub live_seats-every :
    (ps : List Player) (i j : ℕ) (p : Player)
    → i < length ps
    → j < length ps
    → Reached (length ps) i (length ps) j
    → get_elem? ps j ≡ some p
    → live p ≡ true
    → mem p.seat (live_seats ps (clockwise ps i (length ps))) ≡ true
live_seats-every ps i j p h g r e l =
    mem-live_seats ps (clockwise ps i (length ps)) j p (mem-clockwise ps i (length ps) j h g r) e l
