-- ===== src/Poker/Hand/Asked.antt =====
-- hand.go: whether it is the turn of a seat.
use showdown.Base.{
  ℕ, ◌≡◌, refl, ◌⊎◌, inl, inr, Bool, true, false, Option, none, some, ◌==◌, get_elem?, Bool-cases,
  Option-cases, if◌then◌else◌,
}
use showdown.Base.Outcome.{Outcome, ok, panic}
use showdown.Poker.Types.{Player, Error}
use showdown.Poker.Hand.State.{Hand, is_betting}
use showdown.Poker.Hand.Moves.{turn_of}
use showdown.Poker.Hand.Inv.{Dealt, get_turn-range}

-- No, or yes and at which index.
abbrev pub Answer : Outcome Error (Option (ℕ × Player)) → Type 0
Answer m = (m ≡ ok none) ⊎ ((i : ℕ) × (p : Player) × (m ≡ ok (some (i, p))))

option-Answer : (b : Bool) (i : ℕ) (p : Player) → Answer (ok (if b then some (i, p) else none))
option-Answer true i p = inr (i, p, refl)
option-Answer false i p = inl refl

-- On a hand with its indices in range the question has an answer.
pub turn_of-Answer : (h : Hand) (seat : ℕ) → Dealt h → Answer (turn_of h seat)
unfolding turn_of
turn_of-Answer h seat d = elim (Bool-cases (is_betting h.phase)) [
  | inr b ↦ rw (b, turn_of) (inl refl)
  | inl b ↦ elim (Option-cases h.to_act) [
    | inl e ↦ rw (b, e, turn_of) (inl refl)
    | inr (i, e) ↦
        let (p, at) = get_turn-range h i d e in
        rw (b, e, turn_of, at) (option-Answer (p.seat == seat) i p)
  ]
]

-- Whatever is said of an answer and of a panic holds of the question.
pub turn_of-cases : (h : Hand) (seat : ℕ) → (turn_of h seat ≡ panic) ⊎ Answer (turn_of h seat)
unfolding turn_of
turn_of-cases h seat = elim (Bool-cases (is_betting h.phase)) [
  | inr b ↦ rw (b, turn_of) (inr (inl refl))
  | inl b ↦ elim (Option-cases h.to_act) [
    | inl e ↦ rw (b, e, turn_of) (inr (inl refl))
    | inr (i, e) ↦ elim (Option-cases (get_elem? h.players i)) [
      | inl at ↦ rw (b, e, turn_of, at) (inl refl)
      | inr (p, at) ↦ rw (b, e, turn_of, at) (inr (option-Answer (p.seat == seat) i p))
    ]
  ]
]
