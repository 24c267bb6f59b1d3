-- ===== src/Poker/Pots/Conserve.antt =====
-- Building the pots neither loses a chip nor makes one up.
use showdown.Base.{ℕ, ◌+◌, ◌-◌, ◌≤◌, ◌≡◌, refl, List, [], ◌∷◌, arith, min, All, Ascending, sum_by}
use showdown.Poker.Pots.{
  Pot, PotPlayer, contributed, slice, layers, levels, add_to_last, add_dead, amounts, build_pots,
}
use showdown.Poker.Pots.Levels.{levels-Ascending}

-- What the players have put in up to a level.
abbrev pub under : List PotPlayer → ℕ → ℕ
under ps level = sum_by (λ p. min p.total level) ps

pub slice-under :
    (ps : List PotPlayer) (prev level : ℕ)
    → prev ≤ level
    → slice ps prev level + under ps prev ≡ under ps level
slice-under [] prev level h = refl
slice-under (p ∷ ps) prev level h = omega (arith, slice-under ps prev level h)

pub under-le : (ps : List PotPlayer) (level : ℕ) → under ps level ≤ contributed ps
under-le [] level = omega arith
under-le (p ∷ ps) level = omega (arith, under-le ps level)

-- The pots up to the last level never hold more than was contributed.
layers-le :
    (ps : List PotPlayer) (prev : ℕ) (ls : List ℕ)
    → All (λ l. prev ≤ l) ls
    → Ascending (λ l. l) ls
    → amounts (layers ps prev ls) + under ps prev ≤ contributed ps
unfolding layers
layers-le ps prev [] h k = omega (arith, under-le ps prev)
layers-le ps prev (l ∷ ls) h k =
    ground (arith, slice-under ps prev l h.0, layers-le ps l ls k.0 k.1)

under-zero : (ps : List PotPlayer) → under ps 0 ≡ 0
under-zero [] = refl
under-zero (p ∷ ps) = omega (arith, under-zero ps)

amounts-add_to_last :
    (rest : ℕ) (p : Pot) (pots : List Pot)
    → amounts (add_to_last rest p pots) ≡ amounts (p ∷ pots) + rest
amounts-add_to_last rest p [] = omega arith
amounts-add_to_last rest p (q ∷ qs) = omega (arith, amounts-add_to_last rest q qs)

amounts-add_dead :
    (ps : List PotPlayer) (rest : ℕ) (pots : List Pot)
    → amounts (add_dead ps rest pots) ≡ amounts pots + rest
unfolding add_dead
amounts-add_dead ps rest [] = omega arith
amounts-add_dead ps rest (p ∷ pots) = amounts-add_to_last rest p pots

zero_below : (ls : List ℕ) → All (λ l. 0 ≤ l) ls
zero_below [] = tt
zero_below (l ∷ ls) = (omega arith, zero_below ls)

-- The pots hold together exactly what the players contributed, whoever folded or is all in.
pub build_pots-conserves : (ps : List PotPlayer) → amounts (build_pots ps) ≡ contributed ps
unfolding build_pots
build_pots-conserves ps = ground (
  arith,
  layers-le ps 0 (levels ps) (zero_below (levels ps)) (levels-Ascending ps),
  under-zero ps,
  amounts-add_dead ps (contributed ps - amounts (layers ps 0 (levels ps)))
      (layers ps 0 (levels ps)),
)
