-- ===== src/Poker/Hand/Ids.antt =====
-- hand.go: the seats, the hole cards and the number of the players of a hand, which no call changes.
use showdown.Base.{
  ℕ, ◌++◌, get_elem?, All, ◌≡◌, refl, ap, ◌∙◌, inl, inr, Bool, true, ◌&&◌, List, [], ◌∷◌, Option,
  none, some, arith, ltb, zero, suc, length, map, all, ◌==◌, and_true, modify, if_both, Bool-cases,
}
use mathlib.Core.Path.{subst}
use showdown.Poker.Card.{Card, valid}
use showdown.Poker.Types.{Player}
use showdown.Poker.Hand.State.{by_seat, modify_seat}

-- What a call never changes of a player: the seat and the hole cards.
abbrev pub Identity : Type 0
Identity = ℕ × Card × Card

abbrev pub ids : List Player → List Identity
ids [] = []
ids (p ∷ ps) = (p.seat, p.hole0, p.hole1) ∷ ids ps

-- One of the ten seats of a table, and cards of the deck.
abbrev pub known : Identity → Bool
known (seat, c, d) = ltb seat 10 && (valid c && valid d)

-- An index into a list of so many, or none.
abbrev pub in_range : Option ℕ → ℕ → Bool
in_range none n = true
in_range (some i) n = ltb i n

abbrev pub id_of : Player → Identity
id_of p = (p.seat, p.hole0, p.hole1)

pub length-ids : (ps : List Player) → length (ids ps) ≡ length ps
length-ids [] = refl
length-ids (p ∷ ps) = omega (arith, length-ids ps)

pub ids-modify :
    (f : Player → Player) (i : ℕ) (ps : List Player)
    → ((p : Player) → id_of (f p) ≡ id_of p)
    → ids (modify i f ps) ≡ ids ps
ids-modify f i [] h = refl
ids-modify f zero (p ∷ ps) h = ap (λ (x : Identity). x ∷ ids ps) (h p)
ids-modify f (suc i) (p ∷ ps) h = ap (λ (xs : List Identity). id_of p ∷ xs) (ids-modify f i ps h)

pub ids-modify_seat :
    (f : Player → Player) (seat : ℕ) (ps : List Player)
    → ((p : Player) → id_of (f p) ≡ id_of p)
    → ids (modify_seat seat f ps) ≡ ids ps
ids-modify_seat f seat [] h = refl
ids-modify_seat f seat (p ∷ ps) h =
    if_both (λ qs. ids qs ≡ ids (p ∷ ps)) (p.seat == seat)
      (λ _. ap (λ (x : Identity). x ∷ ids ps) (h p))
      λ _. ap (λ (xs : List Identity). id_of p ∷ xs) (ids-modify_seat f seat ps h)

pub ids-map :
    (f : Player → Player) (ps : List Player)
    → ((p : Player) → id_of (f p) ≡ id_of p)
    → ids (map f ps) ≡ ids ps
ids-map f [] h = refl
ids-map f (p ∷ ps) h =
    ap (λ (x : Identity). x ∷ ids (map f ps)) (h p)
    ∙ ap (λ (xs : List Identity). id_of p ∷ xs) (ids-map f ps h)

pub all-get :
    {A : Type 0} (b : A → Bool) (xs : List A) (i : ℕ) (x : A)
    → all b xs ≡ true
    → get_elem? xs i ≡ some x
    → b x ≡ true
all-get b [] i x h e = cc
all-get b (y ∷ ys) zero x h e =
    let same : y ≡ x = cc e in subst (λ z. b z ≡ true) same (and_true (b y) (all b ys) h).0
all-get b (y ∷ ys) (suc i) x h e = all-get b ys i x (and_true (b y) (all b ys) h).1 e

pub all-append :
    {A : Type 0} (b : A → Bool) (xs ys : List A)
    → all b xs ≡ true
    → all b ys ≡ true
    → all b (xs ++ ys) ≡ true
all-append b [] ys h k = k
all-append b (x ∷ xs) ys h k =
    let (first, rest) = and_true (b x) (all b xs) h in rw first (all-append b xs ys rest k)

pub all-known :
    (ps : List Player) → All (λ p. known (id_of p) ≡ true) ps → all known (ids ps) ≡ true
all-known [] h = refl
all-known (p ∷ ps) h = rw h.0 (all-known ps h.1)

-- Every player keeps a seat and gets a card of the deck.
pub known-modify :
    (f : Player → Player) (i : ℕ) (ps : List Player)
    → ((p : Player) → known (id_of p) ≡ true → known (id_of (f p)) ≡ true)
    → all known (ids ps) ≡ true
    → all known (ids (modify i f ps)) ≡ true
known-modify f i [] k h = refl
known-modify f zero (p ∷ ps) k h =
    let (first, rest) = and_true (known (id_of p)) (all known (ids ps)) h in rw (k p first) rest
known-modify f (suc i) (p ∷ ps) k h =
    let (first, rest) = and_true (known (id_of p)) (all known (ids ps)) h in
    rw first (known-modify f i ps k rest)

pub by_seat-known :
    (ps : List Player) (seat : ℕ) (p : Player)
    → all known (ids ps) ≡ true
    → by_seat ps seat ≡ some p
    → known (id_of p) ≡ true
by_seat-known [] seat p h e = cc
by_seat-known (q ∷ ps) seat p h e =
    let (first, rest) = and_true (known (id_of q)) (all known (ids ps)) h in
    elim (Bool-cases (q.seat == seat)) [
      | inl s ↦
          let same : some q ≡ some p = rw s at e in
          let own : q ≡ p = cc same in subst (λ (x : Player). known (id_of x) ≡ true) own first
      | inr s ↦ by_seat-known ps seat p rest (rw s at e)
    ]
