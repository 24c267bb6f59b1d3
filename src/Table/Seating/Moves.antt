-- ===== src/Table/Seating/Moves.antt =====
-- table.go: joining, leaving and moving to another seat keep the seats and the players in agreement.
use showdown.Base.{
  ℕ, ◌<◌, ◌≡◌, refl, sym, ◌∙◌, ap, ◌⊎◌, inl, inr, Bool, true, false, List, [], ◌∷◌, ◌++◌, Option,
  none, some, arith, ◌==◌, if◌then◌else◌, Bool-cases,
}
use showdown.Table.Types.{TablePlayer}
use showdown.Table.Seats.{by_id, id_at, change}
use showdown.Table.Finish.{without_seat, delete_player}
use showdown.Table.Deal.{with_seat}
use showdown.Table.Seating.{
  places, seat_of, Distinct, Seating, by_id-seat_of, id_at-without, id_at-with, length-without,
  length-with, seat_of-delete, delete-Distinct,
}

-- A value under a test that is not none.
picked :
    (b : Bool) (o : Option ℕ) (j : ℕ)
    → (if b then none else o) ≡ some j
    → (b ≡ false) × (o ≡ some j)
picked true o j e = cc
picked false o j e = (refl, e)

-- Nobody else is in the seat, and the player is in no other.
pub record Fits (os : List (Option ℕ)) (ls : List (ℕ × ℕ)) (id s : ℕ) : Type 0 where
  pub nobody_else : (k : ℕ) → id_at os s ≡ some k → k ≡ id
  pub nowhere_else : (i : ℕ) → seat_of ls id ≡ some i → i ≡ s

pub by_id-Fits :
    (os : List (Option ℕ)) (ps : List TablePlayer) (id : ℕ) (p : TablePlayer)
    → Seating os (places ps)
    → by_id ps id ≡ some p
    → Fits os (places ps) p.id p.seat
by_id-Fits os ps id p v e =
    let (here, own) = by_id-seat_of ps id p e in
    let mine : seat_of (places ps) p.id ≡ some p.seat = rw own here in
    record {
      nobody_else = λ k at. cc (at, v.placed p.id p.seat mine);
      nowhere_else = λ i at. cc (at, mine);
    }

module _ (os : List (Option ℕ)) (ps : List TablePlayer) (v : Seating os (places ps)) (id s : ℕ)
    (f : Fits os (places ps) id s) where
  pub free-Seating : Seating (without_seat s os) (places (delete_player id ps))
  free-Seating = record {
    sized = length-without s os ∙ v.sized;
    filled = filled;
    placed = placed;
    distinct = delete-Distinct id ps v.distinct;
  }
    where
      filled :
          (i j : ℕ)
          → id_at (without_seat s os) i ≡ some j
          → seat_of (places (delete_player id ps)) j ≡ some i
      filled i j e =
          let (other, at) = picked (s == i) (id_at os i) j (sym (id_at-without s i os) ∙ e) in
          seat_of-delete id j ps v.distinct
          ∙ not_freed i j other (v.filled i j at) (Bool-cases (id == j))
        where
          not_freed :
              (i j : ℕ)
              → (s == i) ≡ false
              → seat_of (places ps) j ≡ some i
              → (((id == j) ≡ true) ⊎ ((id == j) ≡ false))
              → (if id == j then none else seat_of (places ps) j) ≡ some i
          not_freed i j other at (inl same) =
              let own : j ≡ id = ground (arith, same) in
              absurd (ground (arith, other, f.nowhere_else i (rw (← own) at)))
          not_freed i j other at (inr apart) = rw apart at

      placed :
          (j i : ℕ)
          → seat_of (places (delete_player id ps)) j ≡ some i
          → id_at (without_seat s os) i ≡ some j
      placed j i e =
          let (apart, at) =
            picked (id == j) (seat_of (places ps) j) i
              (sym (seat_of-delete id j ps v.distinct) ∙ e) in
          id_at-without s i os ∙ still_there i j apart (v.placed j i at) (Bool-cases (s == i))
        where
          still_there :
              (i j : ℕ)
              → (id == j) ≡ false
              → id_at os i ≡ some j
              → (((s == i) ≡ true) ⊎ ((s == i) ≡ false))
              → (if s == i then none else id_at os i) ≡ some j
          still_there i j apart at (inl same) =
              let own : i ≡ s = ground (arith, same) in
              absurd (ground (arith, apart, f.nobody_else j (rw (← own) at)))
          still_there i j apart at (inr other) = rw other at

  -- Whoever else fits in a seat still does.
  pub free-Fits :
      (id2 s2 : ℕ)
      → Fits os (places ps) id2 s2
      → Fits (without_seat s os) (places (delete_player id ps)) id2 s2
  free-Fits id2 s2 g = record {
    nobody_else = λ k e.
        g.nobody_else k (picked (s == s2) (id_at os s2) k (sym (id_at-without s s2 os) ∙ e)).1;
    nowhere_else = λ i e.
        g.nowhere_else i
          (picked (id == id2) (seat_of (places ps) id2) i
            (sym (seat_of-delete id id2 ps v.distinct) ∙ e)).1;
  }

seat_of-append :
    (ps : List TablePlayer) (p : TablePlayer) (j : ℕ)
    → seat_of (places ps) p.id ≡ none
    → seat_of (places (ps ++ p ∷ [])) j ≡ (if p.id == j then some p.seat else seat_of (places ps) j)
seat_of-append [] p j new = refl
seat_of-append (q ∷ qs) p j new = ground (arith, new, seat_of-append qs p j (later new))
  where
    later : seat_of (places (q ∷ qs)) p.id ≡ none → seat_of (places qs) p.id ≡ none
    later e = ground (arith, e)

append-Distinct :
    (ps : List TablePlayer) (p : TablePlayer)
    → seat_of (places ps) p.id ≡ none
    → Distinct (places ps)
    → Distinct (places (ps ++ p ∷ []))
append-Distinct [] p new u = (refl, tt)
append-Distinct (q ∷ qs) p new u = elim (Bool-cases (q.id == p.id)) [
  | inl e ↦ cc (rw e at new)
  | inr e ↦
      let new_there : seat_of (places qs) p.id ≡ none = rw e at new in
      let other : (p.id == q.id) ≡ false = ground (arith, e) in
      (
        seat_of-append qs p q.id new_there ∙ rw (other, u.0) refl,
        append-Distinct qs p new_there u.1,
      )
]

-- A new player takes a free seat.
pub join-Seating :
    (os : List (Option ℕ)) (ps : List TablePlayer) (p : TablePlayer)
    → Seating os (places ps)
    → seat_of (places ps) p.id ≡ none
    → id_at os p.seat ≡ none
    → p.seat < 10
    → Seating (with_seat p.seat p.id os) (places (ps ++ p ∷ []))
join-Seating os ps p v new free lt = record {
  sized = length-with p.seat p.id os ∙ v.sized;
  filled = λ i j e.
      seat_of-append ps p j new
      ∙ filled i j (sym (id_at-with p.seat p.id i os (omega (arith, lt, v.sized))) ∙ e)
          (Bool-cases (p.seat == i)) (Bool-cases (p.id == j));
  placed = λ j i e.
      id_at-with p.seat p.id i os (omega (arith, lt, v.sized))
      ∙ placed i j (sym (seat_of-append ps p j new) ∙ e) (Bool-cases (p.seat == i))
          (Bool-cases (p.id == j));
  distinct = append-Distinct ps p new v.distinct;
}
  where
    filled :
        (i j : ℕ)
        → (if p.seat == i then some p.id else id_at os i) ≡ some j
        → (((p.seat == i) ≡ true) ⊎ ((p.seat == i) ≡ false))
        → (((p.id == j) ≡ true) ⊎ ((p.id == j) ≡ false))
        → (if p.id == j then some p.seat else seat_of (places ps) j) ≡ some i
    filled i j h (inl e) (inl d) = rw d (ap some (ground (arith, e)))
    filled i j h (inl e) (inr d) = absurd (ground (arith, h, e, d))
    filled i j h (inr e) (inl d) =
        let at : seat_of (places ps) j ≡ some i = v.filled i j (rw e at h) in
        let own : j ≡ p.id = ground (arith, d) in cc (rw own at at, new)
    filled i j h (inr e) (inr d) = rw d (v.filled i j (rw e at h))

    placed :
        (i j : ℕ)
        → (if p.id == j then some p.seat else seat_of (places ps) j) ≡ some i
        → (((p.seat == i) ≡ true) ⊎ ((p.seat == i) ≡ false))
        → (((p.id == j) ≡ true) ⊎ ((p.id == j) ≡ false))
        → (if p.seat == i then some p.id else id_at os i) ≡ some j
    placed i j h (inl e) (inl d) = rw e (ap some (ground (arith, d)))
    placed i j h (inr e) (inl d) = absurd (ground (arith, h, e, d))
    placed i j h (inl e) (inr d) =
        let at : id_at os i ≡ some j = v.placed j i (rw d at h) in
        let own : i ≡ p.seat = ground (arith, e) in cc (rw own at at, free)
    placed i j h (inr e) (inr d) = rw e (v.placed j i (rw d at h))

seat_of-change :
    (to id j : ℕ) (ps : List TablePlayer) (p : TablePlayer)
    → by_id ps id ≡ some p
    → seat_of (places (change (λ q. record q { seat = to }) id ps)) j
      ≡ (if id == j then some to else seat_of (places ps) j)
seat_of-change to id j [] p e = cc
seat_of-change to id j (q ∷ qs) p e = elim (Bool-cases (q.id == id)) [
  | inl s ↦ rw s (ground (arith, s))
  | inr s ↦ rw s (ground (arith, s, seat_of-change to id j qs p (rw s at e)))
]

change-Distinct :
    (to id : ℕ) (ps : List TablePlayer) (p : TablePlayer)
    → by_id ps id ≡ some p
    → Distinct (places ps)
    → Distinct (places (change (λ q. record q { seat = to }) id ps))
change-Distinct to id [] p e u = tt
change-Distinct to id (q ∷ qs) p e u = elim (Bool-cases (q.id == id)) [
  | inl s ↦ rw s u
  | inr s ↦
      let there : by_id qs id ≡ some p = rw s at e in
      let other : (id == q.id) ≡ false = ground (arith, s) in
      rw s (
        seat_of-change to id q.id qs p there ∙ rw (other, u.0) refl,
        change-Distinct to id qs p there u.1,
      )
]

-- A player moves to a free seat.
pub move-Seating :
    (os : List (Option ℕ)) (ps : List TablePlayer) (id to : ℕ) (p : TablePlayer)
    → Seating os (places ps)
    → by_id ps id ≡ some p
    → id_at os to ≡ none
    → to < 10
    → Seating
        (with_seat to id (without_seat p.seat os))
        (places (change (λ q. record q { seat = to }) id ps))
move-Seating os ps id to p v at free lt =
    let (mine, own) = by_id-seat_of ps id p at in
    record {
      sized = length-with to id (without_seat p.seat os) ∙ length-without p.seat os ∙ v.sized;
      filled = λ i j e.
          seat_of-change to id j ps p at
          ∙ filled mine i j (sym (after_move i) ∙ e) (Bool-cases (to == i)) (Bool-cases (id == j));
      placed = λ j i e.
          after_move i
          ∙ placed mine i j (sym (seat_of-change to id j ps p at) ∙ e) (Bool-cases (to == i))
              (Bool-cases (id == j));
      distinct = change-Distinct to id ps p at v.distinct;
    }
  where
    after_move :
        (i : ℕ)
        → id_at (with_seat to id (without_seat p.seat os)) i
          ≡ (if to == i then some id else (if p.seat == i then none else id_at os i))
    after_move i =
        id_at-with to id i (without_seat p.seat os)
          (omega (arith, lt, v.sized, length-without p.seat os))
        ∙ ap (λ o. if to == i then some id else o) (id_at-without p.seat i os)

    filled :
        seat_of (places ps) id ≡ some p.seat
        → (i j : ℕ)
        → (if to == i then some id else (if p.seat == i then none else id_at os i)) ≡ some j
        → (((to == i) ≡ true) ⊎ ((to == i) ≡ false))
        → (((id == j) ≡ true) ⊎ ((id == j) ≡ false))
        → (if id == j then some to else seat_of (places ps) j) ≡ some i
    filled mine i j h (inl e) (inl d) = rw d (ap some (ground (arith, e)))
    filled mine i j h (inl e) (inr d) = absurd (ground (arith, h, e, d))
    filled mine i j h (inr e) (inl d) =
        let (away, here) = picked (p.seat == i) (id_at os i) j (rw e at h) in
        let own : j ≡ id = ground (arith, d) in
        let twice : seat_of (places ps) id ≡ some i = rw (← own) (v.filled i j here) in
        let same : some p.seat ≡ some i = sym mine ∙ twice in absurd (ground (arith, away, same))
    filled mine i j h (inr e) (inr d) =
        let (away, here) = picked (p.seat == i) (id_at os i) j (rw e at h) in
        rw d (v.filled i j here)

    placed :
        seat_of (places ps) id ≡ some p.seat
        → (i j : ℕ) → (if id == j then some to else seat_of (places ps) j) ≡ some i
        → (((to == i) ≡ true) ⊎ ((to == i) ≡ false))
        → (((id == j) ≡ true) ⊎ ((id == j) ≡ false))
        → (if to == i then some id else (if p.seat == i then none else id_at os i)) ≡ some j
    placed mine i j h (inl e) (inl d) = rw e (ap some (ground (arith, d)))
    placed mine i j h (inr e) (inl d) = absurd (ground (arith, h, e, d))
    placed mine i j h (inl e) (inr d) =
        let here : id_at os i ≡ some j = v.placed j i (rw d at h) in
        let own : i ≡ to = ground (arith, e) in cc (rw own at here, free)
    placed mine i j h (inr e) (inr d) =
        let here : id_at os i ≡ some j = v.placed j i (rw d at h) in
        let kept : id_at os p.seat ≡ some id = v.placed id p.seat mine in
        rw e (stays (Bool-cases (p.seat == i)) here kept)
      where
        stays :
            (((p.seat == i) ≡ true) ⊎ ((p.seat == i) ≡ false))
            → id_at os i ≡ some j
            → id_at os p.seat ≡ some id
            → (if p.seat == i then none else id_at os i) ≡ some j
        stays (inl s) here kept =
            let same : i ≡ p.seat = ground (arith, s) in
            let both : some j ≡ some id = sym here ∙ rw same kept in
            absurd (ground (arith, d, both))
        stays (inr s) here kept = rw s here
