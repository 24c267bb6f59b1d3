-- ===== src/Table/Seating.antt =====
-- table.go: the array of seats and the map of players agree.
use showdown.Base.{
  ℕ, zero, suc, ◌≡◌, refl, sym, ◌∙◌, ap, ◌⊎◌, inl, inr, Bool, true, false, List, [], ◌∷◌, ◌++◌,
  Option, none, some, arith, ◌==◌, ◌<◌, if◌then◌else◌, length, map, Bool-cases, Option-cases,
}
use showdown.Table.Types.{TablePlayer}
use showdown.Table.Seats.{by_id, id_at, change}
use showdown.Table.Finish.{without_seat, delete_player}
use showdown.Table.Deal.{with_seat}
pub mod Moves

-- Who sits where: the ids with their seats.
abbrev pub places : List TablePlayer → List (ℕ × ℕ)
places [] = []
places (p ∷ ps) = (p.id, p.seat) ∷ places ps

abbrev pub seat_of : List (ℕ × ℕ) → ℕ → Option ℕ
seat_of [] id = none
seat_of ((i, s) ∷ ls) id = if i == id then some s else seat_of ls id

abbrev pub Distinct : List (ℕ × ℕ) → Type 0
Distinct [] = Unit
Distinct ((i, s) ∷ ls) = (seat_of ls i ≡ none) × Distinct ls

-- There are ten seats, a seat holds a player who sits there, a player sits in a seat that holds
-- them, and no id occurs twice.
pub record Seating (os : List (Option ℕ)) (ls : List (ℕ × ℕ)) : Type 0 where
  pub sized : length os ≡ 10
  pub filled : (i id : ℕ) → id_at os i ≡ some id → seat_of ls id ≡ some i
  pub placed : (id i : ℕ) → seat_of ls id ≡ some i → id_at os i ≡ some id
  pub distinct : Distinct ls

pub by_id-seat_of :
    (ps : List TablePlayer) (id : ℕ) (p : TablePlayer)
    → by_id ps id ≡ some p
    → (seat_of (places ps) id ≡ some p.seat) × (p.id ≡ id)
by_id-seat_of [] id p e = cc
by_id-seat_of (q ∷ qs) id p e = elim (Bool-cases (q.id == id)) [
  | inl s ↦
      let here : some q ≡ some p = rw s at e in
      let same : q ≡ p = cc here in
      rw s (cc same, ground (arith, s, ap (λ (x : TablePlayer). x.id) same))
  | inr s ↦ let there : by_id qs id ≡ some p = rw s at e in rw s (by_id-seat_of qs id p there)
]

pub seat_of-by_id :
    (ps : List TablePlayer) (id i : ℕ)
    → seat_of (places ps) id ≡ some i
    → (p : TablePlayer) × (by_id ps id ≡ some p) × (p.seat ≡ i) × (p.id ≡ id)
seat_of-by_id [] id i e = cc
seat_of-by_id (q ∷ qs) id i e = elim (Bool-cases (q.id == id)) [
  | inl s ↦ (q, rw s refl, cc (rw s at e), ground (arith, s))
  | inr s ↦ let (p, at, seat, own) = seat_of-by_id qs id i (rw s at e) in (p, rw s at, seat, own)
]

-- A change that keeps the id and the seat keeps who sits where.
pub places-change :
    (f : TablePlayer → TablePlayer) (id : ℕ) (ps : List TablePlayer)
    → ((p : TablePlayer) → (f p).id ≡ p.id)
    → ((p : TablePlayer) → (f p).seat ≡ p.seat)
    → places (change f id ps) ≡ places ps
places-change f id [] k m = refl
places-change f id (p ∷ ps) k m = elim (Bool-cases (p.id == id)) [
  | inl e ↦ rw e (rw (k p, m p) refl)
  | inr e ↦ rw e (ap (λ ls. (p.id, p.seat) ∷ ls) (places-change f id ps k m))
]

pub id_at-without :
    (i j : ℕ) (os : List (Option ℕ))
    → id_at (without_seat i os) j ≡ (if i == j then none else id_at os j)
id_at-without i j [] = ground arith
id_at-without zero zero (o ∷ os) = refl
id_at-without zero (suc j) (o ∷ os) = ground arith
id_at-without (suc i) zero (o ∷ os) = ground arith
id_at-without (suc i) (suc j) (o ∷ os) = ground (arith, id_at-without i j os)

pub id_at-with :
    (i id j : ℕ) (os : List (Option ℕ))
    → i < length os
    → id_at (with_seat i id os) j ≡ (if i == j then some id else id_at os j)
id_at-with i id j [] h = absurd (omega arith)
id_at-with zero id zero (o ∷ os) h = refl
id_at-with zero id (suc j) (o ∷ os) h = ground arith
id_at-with (suc i) id zero (o ∷ os) h = ground arith
id_at-with (suc i) id (suc j) (o ∷ os) h = ground (arith, id_at-with i id j os (omega arith))

pub length-without : (i : ℕ) (os : List (Option ℕ)) → length (without_seat i os) ≡ length os
length-without i [] = refl
length-without zero (o ∷ os) = refl
length-without (suc i) (o ∷ os) = ap suc (length-without i os)

pub length-with : (i id : ℕ) (os : List (Option ℕ)) → length (with_seat i id os) ≡ length os
length-with i id [] = refl
length-with zero id (o ∷ os) = refl
length-with (suc i) id (o ∷ os) = ap suc (length-with i id os)

-- Without a player nobody else's seat changes.
pub seat_of-delete :
    (id j : ℕ) (ps : List TablePlayer)
    → Distinct (places ps)
    → seat_of (places (delete_player id ps)) j ≡ (if id == j then none else seat_of (places ps) j)
seat_of-delete id j [] u = ground arith
seat_of-delete id j (p ∷ ps) u = elim (Bool-cases (p.id == id)) [
  | inl e ↦ rw e (gone (Bool-cases (id == j)) e)
  | inr e ↦ rw e (ground (arith, e, seat_of-delete id j ps u.1))
]
  where
    gone :
        (((id == j) ≡ true) ⊎ ((id == j) ≡ false))
        → (p.id == id) ≡ true
        → seat_of (places ps) j
          ≡ (if id == j then none else (if p.id == j then some p.seat else seat_of (places ps) j))
    gone (inl same) e = let own : p.id ≡ j = ground (arith, e, same) in rw (same, ← own) (u.0)
    gone (inr other) e = rw other (ground (arith, e, other))

pub delete-Distinct :
    (id : ℕ) (ps : List TablePlayer)
    → Distinct (places ps)
    → Distinct (places (delete_player id ps))
delete-Distinct id [] u = tt
delete-Distinct id (p ∷ ps) u = elim (Bool-cases (p.id == id)) [
  | inl e ↦ rw e u.1
  | inr e ↦ rw e (seat_of-delete id p.id ps u.1 ∙ rw u.0 (ground arith), delete-Distinct id ps u.1)
]
