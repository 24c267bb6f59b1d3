-- ===== src/Poker/Hand/Paying.antt =====
-- Paying the pots: every pot goes out to the last chip, to players of the hand.
use showdown.Base.{
  ℕ, suc, ◌+◌, ◌-◌, ◌*◌, ◌/◌, ◌≤◌, ◌≡◌, ◌≢◌, refl, ◌∙◌, inl, inr, Bool, true, false, ◌||◌, List, [],
  ◌∷◌, ◌++◌, Option, none, some, arith, ltb, ◌==◌, if◌then◌else◌, length, All, All-append,
  All-insertion_sort, insertion_sort-ne-nil, Bool-cases, ltb→le,
}
use mathlib.Core.Path.{subst}
use showdown.Base.Outcome.{Outcome, ok}
use showdown.Base.Text.{Text}
use showdown.Poker.Eval.{HandValue, compare_values, no_value}
use showdown.Poker.Pots.{Pot, amounts}
use showdown.Poker.Types.{Player, Error}
use showdown.Poker.Hand.State.{modify_seat}
use showdown.Poker.Hand.Ids.{ids, ids-modify_seat}
use showdown.Poker.Hand.Show.{
  Values, value_of_seat, is_positive, is_zero, is_empty, pick_winners, clockwise_from_button,
  winners_of,
}
use showdown.Poker.Hand.Award.{win, pay_seats, pay, pay_pot, pay_halves, pay_pots}
use showdown.Poker.Hand.Chips.{
  stacks, committeds, seated, sum_by-modify_seat_at, sum_by-modify_seat, All-modify_seat,
  any-modify_seat, by_seat-found,
}

-- The players after `amount` chips were paid out to them.
pub record Paid (ps : List Player) (amount : ℕ) (qs : List Player) : Type 0 where
  pub received : stacks qs ≡ stacks ps + amount
  pub committed_same : committeds qs ≡ committeds ps
  pub no_bets : All (λ p. p.bet ≡ 0) ps → All (λ p. p.bet ≡ 0) qs
  pub seated_same : (s : ℕ) → seated qs s ≡ seated ps s
  pub ids_same : ids qs ≡ ids ps

pub Paid-refl : (ps : List Player) → Paid ps 0 ps
Paid-refl ps = record {
  received = omega arith;
  committed_same = refl;
  no_bets = λ h. h;
  seated_same = λ s. refl;
  ids_same = refl;
}

pub Paid-trans :
    {ps qs rs : List Player} {a b : ℕ} → Paid ps a qs → Paid qs b rs → Paid ps (a + b) rs
Paid-trans h k = record {
  received = omega (arith, h.received, k.received);
  committed_same = k.committed_same ∙ h.committed_same;
  no_bets = λ n. k.no_bets (h.no_bets n);
  seated_same = λ s. k.seated_same s ∙ h.seated_same s;
  ids_same = k.ids_same ∙ h.ids_same;
}

pub win-Paid :
    (s amount : ℕ) (ps : List Player)
    → seated ps s ≡ true
    → Paid ps amount (modify_seat s (win amount) ps)
win-Paid s amount ps h =
    let (p, e) = by_seat-found ps s h in
    record {
      received = omega (arith, sum_by-modify_seat_at (λ q. q.stack) (win amount) s p ps e);
      committed_same = sum_by-modify_seat (λ q. q.committed) (win amount) (λ q. refl) s ps;
      no_bets = All-modify_seat (λ q. q.bet ≡ 0) (win amount) (λ q n. n) s ps;
      seated_same = λ t. any-modify_seat (λ q. q.seat == t) (win amount) (λ q. refl) s ps;
      ids_same = ids-modify_seat (win amount) s ps λ q. refl;
    }

-- What a payment to the winners comes to.
abbrev pub PaysOut : {B : Type 0} → List Player → ℕ → Outcome Error (List Player × B) → Type 0
PaysOut {B} ps amount m = (qs : List Player) × (b : B) × (m ≡ ok (qs, b)) × Paid ps amount qs

abbrev pub Seated : List Player → List ℕ → Type 0
Seated ps ss = All (λ s. seated ps s ≡ true) ss

Seated-trans :
    {ps qs : List Player} {amount : ℕ} (ss : List ℕ)
    → Paid ps amount qs
    → Seated ps ss
    → Seated qs ss
Seated-trans [] paid h = tt
Seated-trans (s ∷ ss) paid h = (paid.seated_same s ∙ h.0, Seated-trans ss paid h.1)

-- The shares and the odd chips together.
pay_seats-PaysOut :
    (share odd : ℕ) (ws : List ℕ) (ps : List Player)
    → Seated ps ws
    → odd ≤ length ws
    → PaysOut ps (share * length ws + odd) (pay_seats share odd ws ps)
unfolding pay_seats
pay_seats-PaysOut share odd [] ps h le =
    (ps, [], refl, subst (λ n. Paid ps n ps) (omega arith) (Paid-refl ps))
pay_seats-PaysOut share odd (s ∷ ws) ps h le =
    let amt : ℕ = if ltb 0 odd then share + 1 else share in
    let first = win-Paid s amt ps h.0 in
    let (p, e) = by_seat-found ps s h.0 in
    let (qs, b, f, rest) =
      pay_seats-PaysOut share (odd - 1) ws (modify_seat s (win amt) ps) (Seated-trans ws first h.1)
        (omega arith) in
    let total : amt + (share * length ws + (odd - 1)) ≡ share * length (s ∷ ws) + odd =
      ground arith in
    rw (e, pay_seats, f) (_, _, refl, subst (λ n. Paid ps n qs) total (Paid-trans first rest))

pay-PaysOut :
    (i amount : ℕ) (ws : List ℕ) (words : Text) (board : ℕ) (ps : List Player)
    → ws ≢ []
    → Seated ps ws
    → PaysOut ps amount (pay i amount ws words board ps)
unfolding pay
pay-PaysOut i amount [] words board ps ne h = absurd (ne refl)
pay-PaysOut i amount (w ∷ ws) words board ps ne h =
    let n = length (w ∷ ws) in
    let odd = amount - amount / n * n in
    let few : odd ≤ n = grind arith in
    let whole : amount / n * n + odd ≡ amount = grind arith in
    let (qs, b, e, paid) = pay_seats-PaysOut (amount / n) odd (w ∷ ws) ps h few in
    rw e (_, _, refl, subst (λ k. Paid ps k qs) whole paid)

pick_winners-All :
    (P : ℕ → Type 0) (vs : Values) (seats : List ℕ) (best : HandValue) (winners : List ℕ)
    → All P seats
    → All P winners
    → All P (pick_winners vs seats best winners)
unfolding pick_winners
pick_winners-All P vs [] best winners h k = k
pick_winners-All P vs (s ∷ seats) best winners h k =
    let v = value_of_seat vs s in
    let c = compare_values v best in
    elim (Bool-cases (is_empty winners || is_positive c)) [
      | inl e ↦ rw (e, pick_winners) (pick_winners-All P vs seats v (s ∷ []) h.1 (h.0, tt))
      | inr e ↦ rw (e, pick_winners) (pick_winners-All P vs seats best _ h.1 (tied (is_zero c)))
    ]
  where
    tied : (b : Bool) → All P (if b then winners ++ s ∷ [] else winners)
    tied true = All-append P winners (s ∷ []) k (h.0, tt)
    tied false = k

append-ne-nil : (xs ys : List ℕ) → ys ≢ [] → xs ++ ys ≢ []
append-ne-nil [] ys h e = h e
append-ne-nil (x ∷ xs) ys h e = cc

-- Once there is a winner there always is one.
pick_winners_stays :
    (vs : Values) (seats : List ℕ) (best : HandValue) (winners : List ℕ)
    → winners ≢ []
    → pick_winners vs seats best winners ≢ []
unfolding pick_winners
pick_winners_stays vs [] best winners h = h
pick_winners_stays vs (s ∷ seats) best winners h =
    let v = value_of_seat vs s in
    let c = compare_values v best in
    elim (Bool-cases (is_empty winners || is_positive c)) [
      | inl e ↦ rw (e, pick_winners) (pick_winners_stays vs seats v (s ∷ []) (λ q. cc))
      | inr e ↦ rw (e, pick_winners) (pick_winners_stays vs seats best _ (tied (is_zero c)))
    ]
  where
    tied : (b : Bool) → (if b then winners ++ s ∷ [] else winners) ≢ []
    tied true = append-ne-nil winners (s ∷ []) (λ q. cc)
    tied false = h

-- The first eligible seat starts as a winner.
pick_winners-ne-nil :
    (vs : Values) (seats : List ℕ) → seats ≢ [] → pick_winners vs seats no_value [] ≢ []
unfolding pick_winners
pick_winners-ne-nil vs [] h = absurd (h refl)
pick_winners-ne-nil vs (s ∷ seats) h =
    pick_winners_stays vs seats (value_of_seat vs s) (s ∷ []) (λ q. cc)

-- Every pot has somebody who can win it, and those are players of the hand.
abbrev pub Winnable : List Player → Pot → Type 0
Winnable ps pot = (pot.eligible ≢ []) × Seated ps pot.eligible

Winnable-trans :
    {ps qs : List Player} {amount : ℕ} (pots : List Pot)
    → Paid ps amount qs
    → All (Winnable ps) pots
    → All (Winnable qs) pots
Winnable-trans [] paid h = tt
Winnable-trans (pot ∷ pots) paid h =
    ((h.0.0, Seated-trans pot.eligible paid h.0.1), Winnable-trans pots paid h.1)

module _ (button : ℕ) where
  pub winners_of-won :
      (vs : Values) (pot : Pot) (ps : List Player)
      → Winnable ps pot
      → (winners_of button vs pot ≢ []) × Seated ps (winners_of button vs pot)
  unfolding winners_of clockwise_from_button
  winners_of-won vs pot ps w = (
    insertion_sort-ne-nil _ _ (pick_winners-ne-nil vs pot.eligible w.0),
    All-insertion_sort (λ s. seated ps s ≡ true) _ _
        (pick_winners-All (λ s. seated ps s ≡ true) vs pot.eligible no_value [] w.1 tt),
  )

  pay_pot-PaysOut :
      (vs : Values) (i amount : ℕ) (pot : Pot) (board : ℕ) (ps : List Player)
      → Winnable ps pot
      → PaysOut ps amount (pay_pot button vs i amount pot board ps)
  unfolding pay_pot
  pay_pot-PaysOut vs i amount pot board ps w =
      let (ne, here) = winners_of-won vs pot ps w in won (winners_of button vs pot) refl ne here
    where
      won :
          (ws : List ℕ)
          → winners_of button vs pot ≡ ws
          → ws ≢ []
          → Seated ps ws
          → PaysOut ps amount (pay_pot button vs i amount pot board ps)
      won [] e ne here = absurd (ne refl)
      won (x ∷ ws) e ne here = rw e (pay-PaysOut i amount (x ∷ ws) _ board ps ne here)

  pay_halves-PaysOut :
      (vs vs2 : Values) (i : ℕ) (pot : Pot) (ps : List Player)
      → Winnable ps pot
      → PaysOut ps pot.amount (pay_halves button vs vs2 i pot ps)
  unfolding pay_halves
  pay_halves-PaysOut vs vs2 i pot ps w =
      let half = pot.amount / 2 in
      let (qs, a, e, first) = pay_pot-PaysOut vs i (pot.amount - half) pot 1 ps w in
      let (rs, b, f, second) =
        pay_pot-PaysOut vs2 i half pot 2 qs (Winnable-trans (pot ∷ []) first (w, tt)).0 in
      elim (Bool-cases (ltb 0 half)) [
        | inl d ↦
            let sum : (pot.amount - half) + half ≡ pot.amount = omega arith in
            rw (e, f, d) (_, _, refl, subst (λ n. Paid ps n rs) sum (Paid-trans first second))
        | inr d ↦
            let sum : pot.amount - half ≡ pot.amount = omega (arith, ltb→le 0 half d) in
            rw (e, d) (_, _, refl, subst (λ n. Paid ps n qs) sum first)
      ]

  -- The loop over the pots pays out what they hold together, on one board or on two.
  pub pay_pots-PaysOut :
      (vs : Values) (vs2 : Option Values) (i : ℕ) (pots : List Pot) (ps : List Player)
      → All (Winnable ps) pots
      → PaysOut ps (amounts pots) (pay_pots button vs vs2 i pots ps)
  unfolding pay_pots
  pay_pots-PaysOut vs none i [] ps w = (ps, [], refl, Paid-refl ps)
  pay_pots-PaysOut vs (some vs2) i [] ps w = (ps, [], refl, Paid-refl ps)
  pay_pots-PaysOut vs none i (pot ∷ pots) ps w =
      let (qs, a, e, first) = pay_pot-PaysOut vs i pot.amount pot 0 ps w.0 in
      let (rs, b, f, rest) =
        pay_pots-PaysOut vs none (suc i) pots qs (Winnable-trans pots first w.1) in
      rw (e, f) (_, _, refl, Paid-trans first rest)
  pay_pots-PaysOut vs (some vs2) i (pot ∷ pots) ps w =
      let (qs, a, e, first) = pay_halves-PaysOut vs vs2 i pot ps w.0 in
      let (rs, b, f, rest) =
        pay_pots-PaysOut vs (some vs2) (suc i) pots qs (Winnable-trans pots first w.1) in
      rw (e, f) (_, _, refl, Paid-trans first rest)
