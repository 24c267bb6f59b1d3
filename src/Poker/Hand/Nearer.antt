-- ===== src/Poker/Hand/Nearer.antt =====
-- hand.go: an action without a raise, or a timeout, brings the end of the betting round nearer.
use showdown.Base.{
  ℕ, zero, suc, ◌+◌, ◌-◌, ◌<◌, ◌≡◌, ◌⊎◌, inl, inr, refl, Bool, true, false, not, ◌&&◌, ◌||◌, List,
  [], ◌∷◌, some, arith, get_elem?, modify, min, if◌then◌else◌, Bool-cases, Option-cases, ◌==◌, ltb,
  sum_by, sum_by-modify_at,
}
use showdown.Base.Int.{ℤ, pos}
use showdown.Base.Outcome.{Outcome, ok, refused, panic, ◌>>=◌, Whenever, Whenever-join}
use showdown.Poker.Types.{
  Player, Event, ActionKind, fold, check, call, bet, raise, all_in, unknown, Error,
}
use showdown.Poker.Hand.State.{Hand, Run, emit, is_betting, by_seat, active}
use showdown.Poker.Hand.Round.{needs_to_act}
use showdown.Poker.Hand.Moves.{turn_of, perform, perform_as, effective, commit_chips}
use showdown.Poker.Hand.Turn.{
  settle, apply, after_move, timeout, time_out, note_action, acted_amount, bet_at,
}
use showdown.Poker.Hand.Asked.{turn_of-cases}
use showdown.Base.Outcome.{ok}
use showdown.Poker.Hand.Acts.{turn_of_sound}
use showdown.Poker.Hand.Turns.{Turn, Rests, Settled, settle-Settled}

abbrev pub weight : ℕ → Player → ℕ
weight price p = if needs_to_act price p then 1 else 0

-- How many players owe an action.
abbrev pub owing : Hand → ℕ
owing h = sum_by (weight h.current_bet) h.players

-- The round is over, or fewer players owe an action.
abbrev pub Nearer : Hand → Run → Type 0
Nearer h r = Rests r ⊎ (owing r.0 < owing h)

get-modify :
    {A : Type 0} (f : A → A) (i : ℕ) (x : A) (xs : List A)
    → get_elem? xs i ≡ some x
    → get_elem? (modify i f xs) i ≡ some (f x)
get-modify f i x [] e = cc
get-modify f zero x (y ∷ ys) e = cc (e)
get-modify f (suc i) x (y ∷ ys) e = get-modify f i x ys e

-- A settled hand in which the player at an index changed so that no action is owed.
settle-fewer :
    (k : Hand) (es : List Event) (i : ℕ) (q : Player) (note : Player → Player)
    → is_betting k.phase ≡ true
    → get_elem? k.players i ≡ some q
    → needs_to_act k.current_bet (note q) ≡ false
    → (l : Hand) → l.phase ≡ k.phase
    → l.players ≡ modify i note k.players
    → l.current_bet ≡ k.current_bet
    → Whenever
        (λ r. Rests r ⊎ (owing r.0 + weight k.current_bet q ≡ owing k))
        (settle (l, es) i false)
settle-fewer k es i q note b at done l ph ps cb =
    weaken (settle (l, es) i false) (settle-Settled l es i false (rw ph b))
  where
    weaken :
        (m : Outcome Error Run)
        → Whenever (Settled l) m
        → Whenever (λ r. Rests r ⊎ (owing r.0 + weight k.current_bet q ≡ owing k)) m
    weaken (ok r) (inl rests) = inl rests
    weaken (ok r) (inr (turn, same, price)) =
        let fewer = sum_by-modify_at (weight k.current_bet) note i q k.players at in
        let none : weight k.current_bet (note q) ≡ 0 = rw done refl in
        inr (rw (same, price, ps, cb) (omega (arith, fewer, none)))
    weaken (refused e) s = tt
    weaken panic s = tt

-- A decision that leaves the player all-in, folded or at the current bet.
after_move-fewer :
    (h k : Hand) (i : ℕ) (p q : Player) (kind : ActionKind)
    → is_betting k.phase ≡ true
    → get_elem? k.players i ≡ some q
    → (active q && ltb q.bet k.current_bet) ≡ false
    → owing k + weight h.current_bet p ≡ owing h + weight k.current_bet q
    → needs_to_act h.current_bet p ≡ true
    → Whenever (Nearer h) (after_move i p k kind)
unfolding after_move emit
after_move-fewer h k i p q kind b at quiet moved owes = weaken _ (
    settle-fewer k _ i q
      (note_action k.last_full_bet_level kind (acted_amount kind p.bet (bet_at k.players i))) b at
      (ground (arith, quiet)) _ refl refl refl)
  where
    weaken :
        (m : Outcome Error Run)
        → Whenever (λ r. Rests r ⊎ (owing r.0 + weight k.current_bet q ≡ owing k)) m
        → Whenever (Nearer h) m
    weaken (ok r) (inl rests) = inl rests
    weaken (ok r) (inr e) =
        let one : weight h.current_bet p ≡ 1 = rw owes refl in inr (omega (arith, e, moved, one))
    weaken (refused e) s = tt
    weaken panic s = tt

-- A fold, a check or a call of the player who owes an action.
abbrev pub is_passive : ActionKind → Bool
is_passive fold = true
is_passive check = true
is_passive call = true
is_passive _ = false

module _ (h : Hand) (i : ℕ) (p : Player) (b : is_betting h.phase ≡ true)
    (at : get_elem? h.players i ≡ some p) (owes : needs_to_act h.current_bet p ≡ true) where
  fold-Nearer :
      (amount : ℤ)
      → Whenever (λ r. Whenever (Nearer h) (after_move i p r.0 r.1)) (perform_as h i p fold amount)
  unfolding perform_as
  fold-Nearer amount =
      let out : Player → Player = λ q. record q { folded = true } in
      after_move-fewer h (record h { players = modify i out h.players }) i p (out p) fold b
        (get-modify out i p h.players at) refl
        (sum_by-modify_at (weight h.current_bet) out i p h.players at) owes

  check-Nearer :
      (amount : ℤ)
      → Whenever (λ r. Whenever (Nearer h) (after_move i p r.0 r.1)) (perform_as h i p check amount)
  unfolding perform_as
  check-Nearer amount = elim (Bool-cases (ltb p.bet h.current_bet)) [
    | inl e ↦ rw e tt
    | inr e ↦ rw e (after_move-fewer h h i p p check b at (ground (arith, e)) refl owes)
  ]

  call-Nearer :
      (amount : ℤ)
      → Whenever (λ r. Whenever (Nearer h) (after_move i p r.0 r.1)) (perform_as h i p call amount)
  unfolding perform_as
  call-Nearer amount = elim (Bool-cases (ltb p.bet h.current_bet)) [
    | inr e ↦ rw e tt
    | inl e ↦
        let add : ℕ = min (h.current_bet - p.bet) p.stack in
        rw e (
          after_move-fewer h (record h { players = modify i (commit_chips add) h.players }) i p
            (commit_chips add p) call b (get-modify (commit_chips add) i p h.players at)
            (ground (arith, e))
            (sum_by-modify_at (weight h.current_bet) (commit_chips add) i p h.players at) owes)
  ]

-- An action without a raise of the player whose turn it is ends the round or leaves fewer players
-- who owe an action.
pub apply-Nearer :
    (h : Hand) (seat : ℕ) (kind : ActionKind)
    → is_passive kind ≡ true
    → Turn h
    → Whenever (Nearer h) (apply h seat (record { kind = kind; amount = pos 0 }))
unfolding apply perform effective
apply-Nearer h seat kind passive (j, o, acts, here, owes) =
    elim (Option-cases (by_seat h.players seat)) [
      | inl e ↦ rw (e, apply) tt
      | inr (q, e) ↦ elim (turn_of-cases h seat) [
        | inl t ↦ rw (e, apply, t) tt
        | inr (inl t) ↦ rw (e, apply, t) tt
        | inr (inr (i, p, t)) ↦
            let (ph, at, mine, _) = turn_of_sound h seat i p t in
            rw (e, apply, t) (by_kind i p (rw ph refl) at (owed i p at mine) kind passive)
      ]
    ]
  where
    owed :
        (i : ℕ) (p : Player)
        → get_elem? h.players i ≡ some p
        → h.to_act ≡ some i
        → needs_to_act h.current_bet p ≡ true
    owed i p at mine =
        let same : i ≡ j = cc (mine, acts) in
        let player : p ≡ o = cc (at, here, same) in rw player owes

    joined :
        (i : ℕ) (p : Player) (kind : ActionKind)
        → Whenever
            (λ r. Whenever (Nearer h) (after_move i p r.0 r.1))
            (perform_as h i p kind (pos 0))
        → Whenever (Nearer h) (perform_as h i p kind (pos 0) >>= λ r. after_move i p r.0 r.1)
    joined i p kind =
        Whenever-join (Nearer h) (perform_as h i p kind (pos 0)) (λ r. after_move i p r.0 r.1)

    by_kind :
        (i : ℕ) (p : Player)
        → is_betting h.phase ≡ true
        → get_elem? h.players i ≡ some p
        → needs_to_act h.current_bet p ≡ true
        → (kind : ActionKind) → is_passive kind ≡ true
        → Whenever
            (Nearer h)
            (perform h i p (record { kind = kind; amount = pos 0 }) >>= λ r. after_move i p r.0 r.1)
    by_kind i p b at owes fold e = joined i p fold (fold-Nearer h i p b at owes (pos 0))
    by_kind i p b at owes check e = joined i p check (check-Nearer h i p b at owes (pos 0))
    by_kind i p b at owes call e = joined i p call (call-Nearer h i p b at owes (pos 0))
    by_kind i p b at owes bet e = cc
    by_kind i p b at owes raise e = cc
    by_kind i p b at owes all_in e = cc
    by_kind i p b at owes unknown e = cc

-- So does a timeout.
pub timeout-Nearer :
    (h : Hand) (seat i : ℕ) (p : Player)
    → turn_of h seat ≡ ok (some (i, p))
    → Turn h
    → Whenever (Nearer h) (timeout h seat)
unfolding timeout time_out emit
timeout-Nearer h seat i p t (j, o, acts, here, owes) =
    let (ph, at, mine, _) = turn_of_sound h seat i p t in
    let same : i ≡ j = cc (mine, acts) in
    let player : p ≡ o = cc (at, here, same) in
    let kind : ActionKind = if p.bet == h.current_bet then check else fold in
    let decide : Player → Player = λ q.
      note_action h.last_full_bet_level kind 0
        (record q { folded = q.folded || not (p.bet == h.current_bet) }) in
    rw (t, timeout)
      (weaken _ (rw player owes)
        (settle-fewer h _ i p decide (rw ph refl) at (ground arith) _ refl refl refl))
  where
    weaken :
        (m : Outcome Error Run)
        → needs_to_act h.current_bet p ≡ true
        → Whenever (λ r. Rests r ⊎ (owing r.0 + weight h.current_bet p ≡ owing h)) m
        → Whenever (Nearer h) m
    weaken (ok r) mine (inl rests) = inl rests
    weaken (ok r) mine (inr e) =
        let one : weight h.current_bet p ≡ 1 = rw mine refl in inr (omega (arith, e, one))
    weaken (refused e) mine s = tt
    weaken panic mine s = tt
