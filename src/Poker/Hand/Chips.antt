-- ===== src/Poker/Hand/Chips.antt =====
-- Where the chips of a hand are: sums over the players, and what the helpers do to them.
use showdown.Base.{
  ℕ, ◌+◌, ◌≡◌, refl, ◌∙◌, inl, inr, Bool, true, List, [], ◌∷◌, some, arith, ◌==◌, map, any, sum_by,
  All, Bool-cases,
}
use showdown.Poker.Pots.{contributed, amounts}
use showdown.Poker.Pots.Conserve.{build_pots-conserves}
use showdown.Poker.Types.{Player}
use showdown.Poker.Hand.State.{by_seat, modify_seat, worth, pot_player, pots}

abbrev pub stacks : List Player → ℕ
stacks = sum_by (λ p. p.stack)

abbrev pub committeds : List Player → ℕ
committeds = sum_by (λ p. p.committed)

abbrev pub worths : List Player → ℕ
worths = sum_by worth

-- A player with this seat is in the hand.
abbrev pub seated : List Player → ℕ → Bool
seated ps s = any (λ p. p.seat == s) ps

pub contributed-pot_player : (ps : List Player) → contributed (map pot_player ps) ≡ committeds ps
contributed-pot_player [] = refl
contributed-pot_player (p ∷ ps) = omega (arith, contributed-pot_player ps)

-- The pots hold what the players have committed.
pub amounts-pots : (ps : List Player) → amounts (pots ps) ≡ committeds ps
unfolding pots
amounts-pots ps = build_pots-conserves (map pot_player ps) ∙ contributed-pot_player ps

-- With no bets in front of the players their chips are stacks and commitments.
pub worths-no_bets :
    (ps : List Player) → All (λ p. p.bet ≡ 0) ps → worths ps ≡ stacks ps + committeds ps
worths-no_bets [] h = refl
worths-no_bets (p ∷ ps) h = omega (arith, h.0, worths-no_bets ps h.1)

-- A write through a seat that is in the hand, on a measure.
pub sum_by-modify_seat_at :
    (g : Player → ℕ) (f : Player → Player) (s : ℕ) (p : Player) (ps : List Player)
    → by_seat ps s ≡ some p
    → sum_by g (modify_seat s f ps) + g p ≡ sum_by g ps + g (f p)
sum_by-modify_seat_at g f s p [] h = cc
sum_by-modify_seat_at g f s p (q ∷ qs) h = elim (Bool-cases (q.seat == s)) [
  | inl e ↦ rw e (ground (arith, h, e))
  | inr e ↦ rw e (omega (arith, sum_by-modify_seat_at g f s p qs (rw e at h)))
]

module _ (g : Player → ℕ) (f : Player → Player) (same : (p : Player) → g (f p) ≡ g p) where
  pub sum_by-modify_seat : (s : ℕ) (ps : List Player) → sum_by g (modify_seat s f ps) ≡ sum_by g ps
  sum_by-modify_seat s [] = refl
  sum_by-modify_seat s (p ∷ ps) = ground (arith, same p, sum_by-modify_seat s ps)

module _ (P : Player → Type 0) (f : Player → Player) (keep : (p : Player) → P p → P (f p)) where
  pub All-modify_seat : (s : ℕ) (ps : List Player) → All P ps → All P (modify_seat s f ps)
  All-modify_seat s [] h = tt
  All-modify_seat s (p ∷ ps) h = elim (Bool-cases (p.seat == s)) [
    | inl e ↦ rw e (keep p h.0, h.1)
    | inr e ↦ rw e (h.0, All-modify_seat s ps h.1)
  ]

module _ (t : Player → Bool) (f : Player → Player) (same : (p : Player) → t (f p) ≡ t p) where
  pub any-modify_seat : (s : ℕ) (ps : List Player) → any t (modify_seat s f ps) ≡ any t ps
  any-modify_seat s [] = refl
  any-modify_seat s (p ∷ ps) = elim (Bool-cases (p.seat == s)) [
    | inl e ↦ rw (e, same p)
    | inr e ↦ rw (e, any-modify_seat s ps)
  ]

-- A seat that is in the hand is found.
pub by_seat-found :
    (ps : List Player) (s : ℕ) → seated ps s ≡ true → (p : Player) × (by_seat ps s ≡ some p)
by_seat-found [] s h = cc
by_seat-found (p ∷ ps) s h = elim (Bool-cases (p.seat == s)) [
  | inl e ↦ (p, rw e)
  | inr e ↦ let (q, f) = by_seat-found ps s (rw e at h) in (q, rw e f)
]
