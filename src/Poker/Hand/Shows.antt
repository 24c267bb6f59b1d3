-- ===== src/Poker/Hand/Shows.antt =====
-- Showing hands never panics on the boards that a hand deals, and changes nothing but what is
-- shown.
use showdown.Base.{
  ℕ, ◌≤◌, ◌≡◌, refl, inl, inr, Bool, List, [], ◌∷◌, arith, ltb, filter, length, Bool-cases, ltb→le,
  all, and_true, if_both, true, ◌&&◌,
}
use showdown.Base.Outcome.{Outcome, ok, ◌>>=◌, traverse}
use showdown.Poker.Card.{Card, valid}
use showdown.Poker.Eval.Best.{evaluate-best}
use showdown.Poker.Types.{Player, Error, Event}
use showdown.Poker.Hand.State.{Hand, emit, live}
use showdown.Poker.Hand.Show.{
  evaluate_with, description, shown_best, reveal, mark_revealed, reveal_where, values_on,
}
use showdown.Poker.Hand.Award.{report}
use showdown.Poker.Hand.Ids.{ids, id_of, known}

-- The code returns some value.
abbrev pub IsOk : {A : Type 0} → Outcome Error A → Type 0
IsOk {A} m = (a : A) × (m ≡ ok a)

pub traverse-IsOk :
    {A B : Type 0} (f : A → Outcome Error B) (xs : List A)
    → ((x : A) → IsOk (f x))
    → IsOk (traverse f xs)
traverse-IsOk f [] h = ([], refl)
traverse-IsOk f (x ∷ xs) h =
    let (y, e) = h x in let (ys, es) = traverse-IsOk f xs h in (y ∷ ys, rw (e, es))

-- What goes well with every known player goes well with those of them that a test picks.
pub traverse-filter :
    {B : Type 0} (f : Player → Outcome Error B) (t : Player → Bool) (ps : List Player)
    → all known (ids ps) ≡ true
    → ((p : Player) → known (id_of p) ≡ true → IsOk (f p))
    → IsOk (traverse f (filter t ps))
traverse-filter f t [] a h = ([], refl)
traverse-filter f t (p ∷ ps) a h =
    let (first, rest) = and_true (known (id_of p)) (all known (ids ps)) a in
    let (ys, es) = traverse-filter f t ps rest h in
    if_both (λ xs. IsOk (traverse f xs)) (t p) (λ _. let (y, e) = h p first in (y ∷ ys, rw (e, es)))
      λ _. (ys, es)

pub traverse-known :
    {B : Type 0} (f : Player → Outcome Error B) (ps : List Player)
    → all known (ids ps) ≡ true
    → ((p : Player) → known (id_of p) ≡ true → IsOk (f p))
    → IsOk (traverse f ps)
traverse-known f [] a h = ([], refl)
traverse-known f (p ∷ ps) a h =
    let (first, rest) = and_true (known (id_of p)) (all known (ids ps)) a in
    let (ys, es) = traverse-known f ps rest h in let (y, e) = h p first in (y ∷ ys, rw (e, es))

holes_valid : (p : Player) → known (id_of p) ≡ true → (valid p.hole0 && valid p.hole1) ≡ true
holes_valid p a = (and_true (ltb p.seat 10) (valid p.hole0 && valid p.hole1) a).1

pub evaluate_with-IsOk :
    (board : List Card) (p : Player)
    → 3 ≤ length board
    → length board ≤ 5
    → all valid board ≡ true
    → known (id_of p) ≡ true
    → IsOk (evaluate_with board p)
unfolding evaluate_with
evaluate_with-IsOk board p h k b a =
    let (first, second) = and_true (valid p.hole0) (valid p.hole1) (holes_valid p a) in
    let (v, e, _) =
      evaluate-best (p.hole0 ∷ p.hole1 ∷ board) (omega arith) (omega arith)
        (rw (first, second) b) in
    (v, rw (e, evaluate_with))

module _ (board : List Card) (dealt : length board ≤ 5) (cards : all valid board ≡ true) where
  description-IsOk : (p : Player) → known (id_of p) ≡ true → IsOk (description board p)
  unfolding description
  description-IsOk p a = elim (Bool-cases (ltb (length board) 3)) [
    | inl e ↦ rw (e, holes_valid p a) (_, refl)
    | inr e ↦
        let (v, f) = evaluate_with-IsOk board p (ltb→le (length board) 3 e) dealt cards a in
        rw (e, f) (_, refl)
  ]

  shown_best-IsOk : (p : Player) → known (id_of p) ≡ true → IsOk (shown_best board p)
  unfolding shown_best
  shown_best-IsOk p a = elim (Bool-cases (ltb (length board) 3)) [
    | inl e ↦ rw e (_, refl)
    | inr e ↦
        let (v, f) = evaluate_with-IsOk board p (ltb→le (length board) 3 e) dealt cards a in
        rw (e, f) (_, refl)
  ]

  pub reveal-IsOk : (p : Player) → known (id_of p) ≡ true → IsOk (reveal board p)
  unfolding reveal
  reveal-IsOk p a =
      let (d, e) = description-IsOk p a in let (b, f) = shown_best-IsOk p a in rw (e, f) (_, refl)

  pub report-IsOk : (p : Player) → known (id_of p) ≡ true → IsOk (report board p)
  unfolding report
  report-IsOk p a = elim (Bool-cases p.revealed) [
    | inl e ↦ let (r, f) = reveal-IsOk p a in rw (f, e) (_, refl)
    | inr e ↦ rw e (_, refl)
  ]

-- Revealing changes who is revealed, the events and their number.
pub reveal_where-IsOk :
    (t : Player → Bool) (h : Hand) (es : List Event)
    → length h.board ≤ 5
    → all valid h.board ≡ true
    → all known (ids h.players) ≡ true
    → (n : ℕ) × (out : List Event) × (reveal_where t (h, es)
        ≡ ok (record h { players = mark_revealed t h.players; seq = n }, out))
unfolding reveal_where emit
reveal_where-IsOk t h es dealt cards here =
    revealed (traverse-filter (reveal h.board) t h.players here (reveal-IsOk h.board dealt cards))
  where
    revealed :
        IsOk (traverse (reveal h.board) (filter t h.players))
        → (n : ℕ) × (out : List Event) × (reveal_where t (h, es)
            ≡ ok (record h { players = mark_revealed t h.players; seq = n }, out))
    revealed ([], e) = rw e (_, _, refl)
    revealed (r ∷ rs, e) = rw e (_, _, refl)

pub values_on-IsOk :
    (ps : List Player) (board : List Card)
    → 3 ≤ length board
    → length board ≤ 5
    → all valid board ≡ true
    → all known (ids ps) ≡ true
    → IsOk (values_on ps board)
unfolding values_on
values_on-IsOk ps board h k b a =
    traverse-filter (λ p. evaluate_with board p >>= λ v. ok (p.seat, v)) live ps a
      λ p here. let (v, e) = evaluate_with-IsOk board p h k b here in rw e (_, refl)
