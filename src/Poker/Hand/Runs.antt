-- ===== src/Poker/Hand/Runs.antt =====
-- Any sequence of calls on a hand, in any order: what the rest of the program can do to it.
use showdown.Base.{all, true, ℕ, ◌≡◌, refl, ◌∙◌, Bool, ◌≢◌, List, Option}
use mathlib.Core.Path.{subst}
use showdown.Base.Outcome.{Outcome, ok, refused, panic, ◌>>=◌, Ensures, Ensures-of_Returns}
use showdown.Poker.Card.{Card}
use showdown.Poker.Hand.Deal.{new_hand}
use showdown.Poker.Hand.Straddles.{FairStraddle}
use showdown.Poker.Hand.Starts.{in_seat, KeepsCards, brought, new_hand-Good}
use showdown.Poker.Types.{HandConfig, Seat, Action, Error}
use showdown.Poker.Hand.State.{Hand, Run, total_chips}
use showdown.Poker.Hand.Turn.{apply, timeout}
use showdown.Poker.Hand.Calls.{run_it_twice, advance, reveal_next, show_cards, forfeit}
use showdown.Poker.Hand.Inv.{Inv, Good}
use showdown.Poker.Hand.Acts.{apply-Good, timeout-Good}
use showdown.Poker.Hand.Leaving.{forfeit-Good}
use showdown.Poker.Hand.Streets.{advance-Good, run_it_twice-Good}
use showdown.Poker.Hand.Reveals.{reveal_next-Good}
use showdown.Poker.Hand.Late.{show_cards-Good}

-- The exported methods of a hand that change it.
pub data Call : Type 0 where
  act : ℕ → Action → Call
  run_out_of_time : ℕ → Call
  leave_hand : ℕ → Call
  deal_next : Call
  agree_twice : Call
  show_next : Call
  show_late : ℕ → Bool → Bool → Call

-- The hand after a call.
unfoldable pub after : Hand → Call → Outcome Error Hand
after h (act seat a) = apply h seat a >>= λ r. ok r.0
after h (run_out_of_time seat) = timeout h seat >>= λ r. ok r.0
after h (leave_hand seat) = forfeit h seat >>= λ r. ok r.0
after h deal_next = advance h >>= λ r. ok r.0
after h agree_twice = run_it_twice h
after h show_next = reveal_next h >>= λ r. ok r.0
after h (show_late seat first second) = show_cards h seat first second >>= λ r. ok r.0

-- A hand that calls lead to. A refused call leaves the hand as it is.
pub data Reaches (h : Hand) : Hand → Type 0 where
  here : Reaches h h
  step : {k l : Hand} (c : Call) → Reaches h k → after k c ≡ ok l → Reaches h l

abbrev pub Kept : Hand → Hand → Type 0
Kept h k = Inv k × (total_chips k ≡ total_chips h)

hand_of :
    (h : Hand) (m : Outcome Error Run)
    → Ensures (Good (total_chips h)) m
    → Ensures (Kept h) (m >>= λ r. ok r.0)
hand_of h (ok r) good = good
hand_of h (refused e) good = tt
hand_of h panic good = absurd good

-- One call on a valid hand, whichever it is.
pub after-Kept : (h : Hand) (c : Call) → Inv h → Ensures (Kept h) (after h c)
unfolding after
after-Kept h (act seat a) v = hand_of h _ (apply-Good h seat a v)
after-Kept h (run_out_of_time seat) v =
    hand_of h _ (Ensures-of_Returns (Good (total_chips h)) (timeout h seat) (timeout-Good h seat v))
after-Kept h (leave_hand seat) v =
    hand_of h _ (Ensures-of_Returns (Good (total_chips h)) (forfeit h seat) (forfeit-Good h seat v))
after-Kept h deal_next v = hand_of h _ (advance-Good h v)
after-Kept h agree_twice v = run_it_twice-Good h v
after-Kept h show_next v = hand_of h _ (reveal_next-Good h v)
after-Kept h (show_late seat first second) v = hand_of h _ (show_cards-Good h seat first second v)

Reaches-Kept : {h k : Hand} → Inv h → Reaches h k → Kept h k
Reaches-Kept v here = (v, refl)
Reaches-Kept {h} v (step {k} {l} c r e) =
    let (w, chips) = Reaches-Kept v r in
    let (u, same) = subst (Ensures (Kept k)) e (after-Kept k c w) in (u, same ∙ chips)

never_panic : (P : Hand → Type 0) (m : Outcome Error Hand) → Ensures P m → m ≢ panic
never_panic P m good e = subst (Ensures P) e good

-- From a valid hand, whatever calls are made and in whatever order: the hand stays valid, the chips
-- of its players are the same in total, and no further call panics.
pub Reaches-Safe :
    (h k : Hand)
    → Inv h
    → Reaches h k
    → Inv k × (total_chips k ≡ total_chips h) × ((c : Call) → after k c ≢ panic)
Reaches-Safe h k v r =
    let (w, chips) = Reaches-Kept v r in
    (w, chips, λ c. never_panic (Kept k) (after k c) (after-Kept k c w))

-- A hand that `NewHand` returned at the ten seats of a table, with a straddle that is none or not
-- below the big blind and a shuffle that only gives cards of the deck: whatever calls are made and in
-- whatever order, the hand is valid, its players have in total the chips that they brought, and no
-- further call panics.
pub new_hand-Safe :
    (cfg : HandConfig) (seats : List Seat) (shuffle : Option (List Card → List Card)) (r : Run)
    (k : Hand)
    → FairStraddle cfg
    → all in_seat seats ≡ true
    → KeepsCards shuffle
    → new_hand cfg seats shuffle ≡ ok r
    → Reaches r.0 k
    → Inv k × (total_chips k ≡ brought seats) × ((c : Call) → after k c ≢ panic)
new_hand-Safe cfg seats shuffle r k fair at keeps e calls =
    let (v, chips) =
      subst (Ensures (Good (brought seats))) e (new_hand-Good cfg seats shuffle fair at keeps) in
    let (w, same, safe) = Reaches-Safe r.0 k v calls in (w, same ∙ chips, safe)
