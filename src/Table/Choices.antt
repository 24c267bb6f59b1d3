-- ===== src/Table/Choices.antt =====
-- table.go and hand.go: which seat a player gets, and who is the next dealer.
use showdown.Base.{
  ℕ, zero, suc, ◌+◌, ◌-◌, ◌%◌, ◌<◌, ◌≡◌, ◌≢◌, refl, inl, inr, Bool, true, false, List, [], ◌∷◌,
  Option, none, some, arith, ◌==◌, ltb, length, any, Bool-cases,
}
use showdown.Base.Outcome.{Outcome, ok, refused, panic}
use showdown.Table.Types.{Table, TablePlayer, TableError, Deps, table_full}
use showdown.Table.Seats.{id_at, seat_limit, max_seats}
use showdown.Table.Players.{first_free, join_seat}
use showdown.Table.Deal.{seat_after, next_button}

-- Nobody sits in a seat below a bound.
abbrev pub AllTaken : List (Option ℕ) → ℕ → Type 0
AllTaken os n = (j : ℕ) → j < n → j < length os → id_at os j ≢ none

-- What the search from a seat on finds: the lowest free seat, or that there is none.
abbrev Lowest : List (Option ℕ) → ℕ → ℕ → Option ℕ → Type 0
Lowest os i limit none = (j : ℕ) → i + j < limit → j < length os → id_at os j ≢ none
Lowest os i limit (some seat) =
    (k : ℕ) × (seat ≡ i + k)
    × (seat < limit)
    × (k < length os)
    × (id_at os k ≡ none)
    × AllTaken os k

first_free-Lowest : (os : List (Option ℕ)) (i limit : ℕ) → Lowest os i limit (first_free os i limit)
first_free-Lowest [] i limit = λ j h l e. omega (arith, l)
first_free-Lowest (none ∷ os) i limit = elim (Bool-cases (ltb i limit)) [
  | inl f ↦
      rw f (zero, omega arith, ground (arith, f), omega arith, refl, λ j l m e. omega (arith, l))
  | inr f ↦ rw f (λ j h l e. ground (arith, f, h))
]
first_free-Lowest (some id ∷ os) i limit =
    above (first_free os (suc i) limit) (first_free-Lowest os (suc i) limit)
  where
    taken : (k : ℕ) → AllTaken os k → AllTaken (some id ∷ os) (suc k)
    taken k h zero l m e = cc
    taken k h (suc j) l m e = h j (omega (arith, l)) (omega (arith, m)) e

    full :
        ((j : ℕ) → suc i + j < limit → j < length os → id_at os j ≢ none)
        → (j : ℕ) → i + j < limit
        → j < length (some id ∷ os)
        → id_at (some id ∷ os) j ≢ none
    full h zero l m e = cc
    full h (suc j) l m e = h j (omega (arith, l)) (omega (arith, m)) e

    above : (o : Option ℕ) → Lowest os (suc i) limit o → Lowest (some id ∷ os) i limit o
    above none h = full h
    above (some seat) (k, at, lt, inside, free, h) =
        (suc k, omega (arith, at), lt, omega (arith, inside), free, taken k h)

-- What a player who asks for no seat is told.
abbrev pub SeatAnswer : Table → Outcome TableError ℕ → Type 0
SeatAnswer t (ok seat) =
    (seat < seat_limit t)
    × (seat < length t.seats)
    × (id_at t.seats seat ≡ none)
    × AllTaken t.seats seat
SeatAnswer t (refused e) = (e ≡ table_full) × AllTaken t.seats (seat_limit t)
SeatAnswer t panic = ⊥

-- A player who joins without a wish gets the lowest free seat of those in use, and is told that the
-- table is full exactly when all of these are taken.
pub join_seat-SeatAnswer : (t : Table) → SeatAnswer t (join_seat t none)
unfolding join_seat
join_seat-SeatAnswer t =
    by_seat (first_free t.seats 0 (seat_limit t)) (first_free-Lowest t.seats 0 (seat_limit t))
  where
    by_seat :
        (o : Option ℕ)
        → Lowest t.seats 0 (seat_limit t) o
        → SeatAnswer t (elim o [ none ↦ refused table_full | some seat ↦ ok seat ])
    by_seat none h = (refl, λ j l m. h j (omega (arith, l)) m)
    by_seat (some seat) (k, at, lt, inside, free, h) =
        let same : seat ≡ k = omega (arith, at) in rw same (rw same at lt, inside, free, h)

-- The eligible player who sits in a seat.
abbrev pub sits : List TablePlayer → ℕ → Bool
sits es seat = any (λ (p : TablePlayer). p.seat == seat) es

-- The nearest seat from one on where somebody sits.
abbrev pub Nearest : List TablePlayer → ℕ → ℕ → Type 0
Nearest es from seat =
    (k : ℕ) × (k < max_seats)
    × (seat ≡ (from + k) % max_seats)
    × (sits es seat ≡ true)
    × ((j : ℕ) → j < k → sits es ((from + j) % max_seats) ≡ false)

-- What the search over so many seats finds.
abbrev Found : List TablePlayer → ℕ → ℕ → Option ℕ → Type 0
Found es from n none = (j : ℕ) → j < n → sits es ((from + j) % max_seats) ≡ false
Found es from n (some seat) =
    (k : ℕ) × (k < n)
    × (seat ≡ (from + k) % max_seats)
    × (sits es seat ≡ true)
    × ((j : ℕ) → j < k → sits es ((from + j) % max_seats) ≡ false)

seat_after-Found :
    (es : List TablePlayer) (from n : ℕ) → Found es from n (seat_after es (from % max_seats) n)
seat_after-Found es from zero = λ j l. absurd (omega (arith, l))
seat_after-Found es from (suc n) =
    let onward : (from % max_seats + 1) % max_seats ≡ (from + 1) % max_seats = omega arith in
    rw onward (elim (Bool-cases (sits es (from % max_seats))) [
      | inl e ↦ rw e (zero, omega arith, omega arith, e, λ j l. absurd (omega (arith, l)))
      | inr e ↦
          rw e
            (step e (seat_after es ((from + 1) % max_seats) n) (seat_after-Found es (from + 1) n))
    ])
  where
    misses :
        (m : ℕ)
        → sits es (from % max_seats) ≡ false
        → ((j : ℕ) → j < m → sits es ((from + 1 + j) % max_seats) ≡ false)
        → (j : ℕ) → j < suc m
        → sits es ((from + j) % max_seats) ≡ false
    misses m e h zero l =
        let same : (from + 0) % max_seats ≡ from % max_seats = omega arith in rw same e
    misses m e h (suc j) l =
        let same : (from + suc j) % max_seats ≡ (from + 1 + j) % max_seats = omega arith in
        rw same (h j (omega (arith, l)))

    step :
        sits es (from % max_seats) ≡ false
        → (o : Option ℕ) → Found es (from + 1) n o
        → Found es from (suc n) o
    step e none h = misses n e h
    step e (some seat) (k, lt, at, here, h) =
        (suc k, omega (arith, lt), omega (arith, at), here, misses k e h)

-- The button for what the search found.
abbrev button_of : Option ℕ → Outcome TableError ℕ
button_of o = elim o [ none ↦ ok max_seats | some seat ↦ ok seat ]

-- While an eligible player sits in one of the ten seats, the button moves to the nearest seat clockwise
-- of the last one in which an eligible player sits.
pub next_button-Nearest :
    (d : Deps) (es : List TablePlayer) (b s : ℕ)
    → s < max_seats
    → sits es s ≡ true
    → (seat : ℕ) × (next_button d es (some b) ≡ ok seat) × Nearest es (b + 1) seat
unfolding next_button
next_button-Nearest d es b s lt here =
    by_seat (seat_after es ((b + 1) % max_seats) max_seats) (seat_after-Found es (b + 1) max_seats)
  where
    by_seat :
        (o : Option ℕ)
        → Found es (b + 1) max_seats o
        → (seat : ℕ) × (button_of o ≡ ok seat) × Nearest es (b + 1) seat
    by_seat none h =
        let j : ℕ = (s + (max_seats - (b + 1) % max_seats)) % max_seats in
        let back : (b + 1 + j) % max_seats ≡ s = omega (arith, lt) in
        let missed : sits es ((b + 1 + j) % max_seats) ≡ false = h j (omega arith) in
        let out : sits es s ≡ false = rw back at missed in cc (here, out)
    by_seat (some seat) h = (seat, refl, h)
