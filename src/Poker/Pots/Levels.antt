-- ===== src/Poker/Pots/Levels.antt =====
-- The contribution levels ascend and end at the largest contribution that is still in the hand.
use showdown.Base.{
  ℕ, ◌≤◌, inl, inr, List, [], ◌∷◌, arith, ltb, ◌==◌, All, All-map, Ascending, Ascending-append,
  Bool-cases, sort_by-Ascending, ltb→lt,
}
use showdown.Poker.Pots.{PotPlayer, all_in_totals, dedupe_after, dedupe, last, cap_levels, levels}

pub dedupe_after-All :
    (P : ℕ → Type 0) (prev : ℕ) (ls : List ℕ) → All P ls → All P (dedupe_after prev ls)
dedupe_after-All P prev [] h = tt
dedupe_after-All P prev (l ∷ ls) h = elim (Bool-cases (l == prev)) [
  | inl e ↦ rw e (dedupe_after-All P l ls h.1)
  | inr e ↦ rw e (h.0, dedupe_after-All P l ls h.1)
]

dedupe_after-Ascending :
    (prev : ℕ) (ls : List ℕ) → Ascending (λ l. l) ls → Ascending (λ l. l) (dedupe_after prev ls)
dedupe_after-Ascending prev [] h = tt
dedupe_after-Ascending prev (l ∷ ls) h = elim (Bool-cases (l == prev)) [
  | inl e ↦ rw e (dedupe_after-Ascending l ls h.1)
  | inr e ↦ rw e (dedupe_after-All _ l ls h.0, dedupe_after-Ascending l ls h.1)
]

dedupe-Ascending : (ls : List ℕ) → Ascending (λ l. l) ls → Ascending (λ l. l) (dedupe ls)
dedupe-Ascending [] h = tt
dedupe-Ascending (l ∷ ls) h = (dedupe_after-All _ l ls h.0, dedupe_after-Ascending l ls h.1)

-- Everything in an ascending list is at most its last element.
below_last : (l : ℕ) (ls : List ℕ) → Ascending (λ x. x) (l ∷ ls) → All (λ x. x ≤ last l ls) (l ∷ ls)
below_last l [] h = (omega arith, tt)
below_last l (x ∷ ls) h = let ih = below_last x ls h.1 in (omega (arith, ih.0, h.0.0), ih)

cap_levels-Ascending :
    (m : ℕ) (ls : List ℕ) → Ascending (λ l. l) ls → Ascending (λ l. l) (cap_levels m ls)
cap_levels-Ascending m [] h = (tt, tt)
cap_levels-Ascending m (l ∷ ls) h = elim (Bool-cases (ltb (last l ls) m)) [
  | inl e ↦ rw e (
      Ascending-append (λ x. x) m (l ∷ ls)
        (All-map _ _ (l ∷ ls) (λ x k. omega (arith, ltb→lt (last l ls) m e)) (below_last l ls h)) h)
  | inr e ↦ rw e h
]

-- The levels at which the pots are cut are in ascending order.
pub levels-Ascending : (ps : List PotPlayer) → Ascending (λ l. l) (levels ps)
unfolding levels
levels-Ascending ps =
    cap_levels-Ascending _ _ (dedupe-Ascending _ (sort_by-Ascending (λ l. l) (all_in_totals ps)))
