-- ===== src/Table/Sound/Playing.antt =====
-- hand.go: the table around a running hand stays sound, and the automatic actions of a betting round
-- come to an end.
use showdown.Base.{
  ℕ, zero, suc, ◌<◌, ◌≤◌, ◌≡◌, refl, sym, ◌∙◌, ap, inl, inr, true, not, ◌&&◌, List, [], ◌∷◌, Option,
  none, some, arith, ltb, length, get_elem?, Bool-cases, Option-cases, sum_by,
}
use mathlib.Core.Path.{subst}
use showdown.Base.Int.{pos}
use showdown.Base.Outcome.{
  Outcome, ok, refused, panic, ◌>>=◌, Ensures, Whenever, Returns, Ensures-bind,
}
use showdown.Poker.Types.{
  Player, Event, Phase, betting, deal_pending, showing, result, Results, ActionKind, fold, check,
  call, Options,
}
use showdown.Poker.Types
use showdown.Poker.Hand.State.{Hand, Run, total_chips, is_betting}
use showdown.Poker.Hand.Round.{needs_to_act}
use showdown.Poker.Hand.Moves.{turn_of, options, options_of}
use showdown.Poker.Hand.Views.{seat_to_act}
use showdown.Poker.Hand.Turn.{apply, timeout}
use showdown.Poker.Hand.Calls.{can_run_it_twice}
use showdown.Poker.Hand.Inv.{Inv, Good, PhaseInv}
use showdown.Poker.Hand.Acts.{apply-Good, timeout-Good}
use showdown.Poker.Hand.Turns.{Turn, TurnOk}
use showdown.Poker.Hand.Moments.{Leads, apply-Leads, timeout-Leads}
use showdown.Poker.Hand.Nearer.{weight, owing, Nearer, is_passive, apply-Nearer, timeout-Nearer}
use showdown.Table.Types.{
  TablePlayer, Table, TableError, Deps, PreAction, unarmed, sit_out_fold, check_fold, call_any,
}
use showdown.Table.Seats.{by_id, id_at, change_player, player_at, seat_limit}
use showdown.Table.Engine.{
  act_on, engine, note_voluntary, voluntary_seat, apply_events, take_run, pre_action_of, is_armed,
  after_use, act_armed, apply_pre_action, turn_seat, armed_at, await_street, end_hand, show_result,
  after_phase, after_actions, after_engine, play, no_turn, live_seats,
}
use showdown.Table.Finish.{is_contested, finish_hand}
use showdown.Table.Seating.{places, by_id-seat_of}
use showdown.Table.Sound.{Sound, SoundCore, SoundHand, core, Sound-same, core-change}
use showdown.Table.Sound.Finishing.{core-if, finish_hand-Sound}

core-apply_events : (es : List Event) (t : Table) → core (apply_events es t) ≡ core t
core-apply_events [] t = refl
core-apply_events (e ∷ es) t = core-apply_events es _ ∙ one (voluntary_seat e.body)
  where
    one : (o : Option ℕ) → core (note_voluntary o t) ≡ core t
    one none = refl
    one (some seat) = elim (Option-cases (player_at t seat)) [
      | inl e ↦ rw (e, note_voluntary) refl
      | inr (p, e) ↦ rw (e, note_voluntary) (core-change _ p.id t ((λ q. refl), (λ q. refl)))
    ]

pub core-take_run :
    (r : Run) (t : Table)
    → core (take_run r t) ≡ (t.seats, places t.players, some r.0, seat_limit t)
core-take_run (h, es) t = core-apply_events es (record t { hand = some h })

-- A sound table takes a valid hand in which somebody is to act.
pub take_run-Sound : (r : Run) (t : Table) → Sound t → Inv r.0 → TurnOk r.0 → Sound (take_run r t)
take_run-Sound r t v i l = subst SoundCore (sym (core-take_run r t)) (v.0, (i, l))

-- The player to act is in the seat that the table looks at.
player_at-seat :
    (t : Table) (seat : ℕ) (p : TablePlayer) → Sound t → player_at t seat ≡ some p → p.seat ≡ seat
player_at-seat t seat p v e = elim (Option-cases (id_at t.seats seat)) [
  | inl f ↦ cc (rw (f, player_at) at e)
  | inr (id, f) ↦
      let at : by_id t.players id ≡ some p = rw (f, player_at) at e in
      let (here, own) = by_id-seat_of t.players id p at in cc (here, v.0.0.filled seat id f)
]

-- Whose turn it is can be asked for by the seat.
seat_known :
    (h : Hand)
    → is_betting h.phase ≡ true
    → Turn h
    → (i : ℕ) × (p : Player) × (turn_of h (turn_seat h) ≡ ok (some (i, p)))
unfolding turn_of seat_to_act
seat_known h b (i, p, acts, at, owes) =
    let asked : seat_to_act h ≡ some p.seat = rw (acts, seat_to_act, at, b) refl in
    let seat : turn_seat h ≡ p.seat = rw (asked, turn_seat) refl in
    let known : turn_of h p.seat ≡ ok (some (i, p)) = rw (b, turn_of, acts, at) (ground arith) in
    (i, p, subst (λ s. turn_of h s ≡ ok (some (i, p))) (sym seat) known)

-- What an armed player does is no raise.
armed-passive :
    (k : PreAction) (o : Options)
    → is_armed k ≡ true
    → (kind : ActionKind) × (pre_action_of k o ≡ some kind) × (is_passive kind ≡ true)
armed-passive unarmed o e = cc
armed-passive sit_out_fold o e = (fold, refl, refl)
armed-passive check_fold o e = elim (Bool-cases o.check) [
  | inl c ↦ (check, rw c refl, refl)
  | inr c ↦ (fold, rw c refl, refl)
]
armed-passive call_any o e = elim (Bool-cases o.check) [
  | inl c ↦ (check, rw c refl, refl)
  | inr c ↦ elim (Bool-cases (ltb 0 o.call)) [
    | inl d ↦ (call, rw (c, d) refl, refl)
    | inr d ↦ (fold, rw (c, d) refl, refl)
  ]
]

-- A valid hand after an automatic action.
abbrev Moved : Hand → Run → Type 0
Moved h r = (Inv r.0 × TurnOk r.0) × Nearer h r

-- An armed player acts, or runs out of time where the engine refuses the action.
act_armed-Moved :
    (h : Hand) (kind : ActionKind)
    → Inv h
    → is_betting h.phase ≡ true
    → Turn h
    → is_passive kind ≡ true
    → Ensures (Moved h) (act_armed h (turn_seat h) kind)
unfolding act_armed
act_armed-Moved h kind v b turn passive =
    by_result (apply h (turn_seat h) (record { kind = kind; amount = pos 0 }))
      (apply-Good h (turn_seat h) _ v) (apply-Leads h (turn_seat h) _)
      (apply-Nearer h (turn_seat h) kind passive turn)
  where
    timed : Ensures (Moved h) (engine (timeout h (turn_seat h)))
    timed =
        let (i, p, known) = seat_known h b turn in
        late (timeout h (turn_seat h)) (timeout-Good h (turn_seat h) v)
          (timeout-Leads h (turn_seat h) (λ e. turn))
          (timeout-Nearer h (turn_seat h) i p known turn)
      where
        late :
            (m : Outcome Types.Error Run)
            → Returns (Good (total_chips h)) m
            → Whenever Leads m
            → Whenever (Nearer h) m
            → Ensures (Moved h) (engine m)
        late (ok r) g l n = ((g.0, l), n)
        late (refused e) g l n = absurd g
        late panic g l n = absurd g

    by_result :
        (m : Outcome Types.Error Run)
        → Ensures (Good (total_chips h)) m
        → Whenever Leads m
        → Whenever (Nearer h) m
        → Ensures
            (Moved h)
            (elim m [ ok r ↦ ok r | refused e ↦ engine (timeout h (turn_seat h)) | panic ↦ panic ])
    by_result (ok r) g l n = ((g.0, l), n)
    by_result (refused e) g l n = timed
    by_result panic g l n = absurd g

some_owes :
    (h : Hand) (ps : List Player) (i : ℕ) (p : Player)
    → get_elem? ps i ≡ some p
    → needs_to_act h.current_bet p ≡ true
    → 0 < sum_by (weight h.current_bet) ps
some_owes h [] i p at owes = cc
some_owes h (q ∷ qs) zero p at owes =
    let same : q ≡ p = cc at in
    let one : weight h.current_bet q ≡ 1 = rw (same, owes) refl in omega (arith, one)
some_owes h (q ∷ qs) (suc i) p at owes = omega (arith, some_owes h qs i p at owes)

-- Enough automatic actions are left for the players who owe one.
abbrev pub Enough : ℕ → Hand → Type 0
Enough n h = is_betting h.phase ≡ true → owing h ≤ n

-- What follows an automatic action, with fewer of them left.
abbrev pub Follows : ℕ → (Table → Outcome TableError Table) → Type 0
Follows n again =
    (u : Table) (k : Hand) → u.hand ≡ some k → Sound u → Enough n k → Ensures Sound (again u)

pub pre_action-Sound :
    (n : ℕ) (again : Table → Outcome TableError Table) (h : Hand) (p : TablePlayer) (t : Table)
    → Follows n again
    → Sound t
    → Inv h
    → is_betting h.phase ≡ true
    → Turn h
    → owing h ≤ suc n
    → is_armed p.pre_action ≡ true
    → p.seat ≡ turn_seat h
    → Ensures Sound (apply_pre_action h p t >>= again)
unfolding apply_pre_action options act_on
pre_action-Sound n again h p t follows v inv b turn few armed seat =
    let (j, q, turned) = seat_known h b turn in
    let mine : turn_of h p.seat ≡ ok (some (j, q)) =
      subst (λ s. turn_of h s ≡ ok (some (j, q))) (sym seat) turned in
    let (kind, does, passive) = armed-passive p.pre_action (options_of h q) armed in
    let known : options h p.seat ≡ ok (options_of h q) = rw (mine, options) refl in
    let used : Table =
      change_player (λ q. record q { pre_action = after_use q.pre_action }) p.id t in
    let sound : Sound used =
      Sound-same t used (core-change _ p.id t ((λ q. refl), (λ q. refl))) v in
    let moved : Ensures (Moved h) (act_armed h p.seat kind) =
      subst (λ s. Ensures (Moved h) (act_armed h s kind)) (sym seat)
        (act_armed-Moved h kind inv b turn passive) in
    let does_so : Ensures Sound (act_on h p used (options_of h q) >>= again) =
      rw (does, act_on) (acted used sound (act_armed h p.seat kind) moved) in
    rw (known, apply_pre_action) does_so
  where
    acted :
        (used : Table)
        → Sound used
        → (m : Outcome TableError Run) → Ensures (Moved h) m
        → Ensures Sound (m >>= (λ r. ok (take_run r used)) >>= again)
    acted used sound (ok r) ((i, l), near) =
        follows (take_run r used) r.0 (hand_of (core-take_run r used))
          (take_run-Sound r used sound i l) (fewer near)
      where
        hand_of :
            core (take_run r used) ≡ (used.seats, places used.players, some r.0, seat_limit used)
            → (take_run r used).hand ≡ some r.0
        hand_of e = cc e

        fewer : Nearer h r → Enough n r.0
        fewer (inl rests) e = cc (rests, e)
        fewer (inr lt) e = omega (arith, lt, few)
    acted used sound (refused e) near = tt
    acted used sound panic near = absurd near

core-await_street : (d : Deps) (h : Hand) (t : Table) → core (await_street d h t) ≡ core t
core-await_street d h t = core-if t (not h.runout) _ _ refl (
    core-if t
      (t.settings.run_it_twice
        && (not t.rit_decided && (can_run_it_twice h && ltb 1 (live_seats h t))))
      _ _ refl refl)

end_hand-Sound :
    (d : Deps) (h : Hand) (t : Table)
    → Sound t
    → Inv h
    → h.phase ≡ result
    → Ensures Sound (end_hand d h t)
end_hand-Sound d h t v i ph =
    let (_, _, (r, e)) : PhaseInv result h = subst (λ f. PhaseInv f h) ph i.by_phase in
    rw (e, Ensures, end_hand)
      (Ensures-bind Sound Sound (finish_hand d r (no_turn t)) _
        (finish_hand-Sound d r (no_turn t) v)
        (λ u w. Sound-same u (show_result d h r u) (core-if u (is_contested r) _ _ refl refl) w))

armed-known :
    (t : Table) (seat : ℕ) (p : TablePlayer)
    → armed_at t seat ≡ some p
    → (player_at t seat ≡ some p) × (is_armed p.pre_action ≡ true)
armed-known t seat p e = elim (Option-cases (player_at t seat)) [
  | inl f ↦ cc (rw (f, armed_at) at e)
  | inr (q, f) ↦ elim (Bool-cases (is_armed q.pre_action)) [
    | inl g ↦ let same : q ≡ p = cc (rw (f, armed_at, g) at e) in (f ∙ ap some same, rw (← same) g)
    | inr g ↦ cc (rw (f, armed_at, g) at e)
  ]
]

after_phase-Sound :
    (n : ℕ) (again : Table → Outcome TableError Table) (d : Deps) (h : Hand) (t : Table)
    → ((p : TablePlayer)
        → is_betting h.phase ≡ true
        → Turn h
        → is_armed p.pre_action ≡ true
        → p.seat ≡ turn_seat h
        → Ensures Sound (apply_pre_action h p t >>= again))
    → Sound t
    → Inv h
    → TurnOk h
    → Ensures Sound (after_phase again d h t)
unfolding after_phase
after_phase-Sound n again d h t armed v i turn = by_phase h.phase refl
  where
    by_phase : (f : Phase) → h.phase ≡ f → Ensures Sound (after_phase again d h t)
    by_phase betting e =
        let b : is_betting h.phase ≡ true = rw e refl in
        elim (Option-cases (armed_at t (turn_seat h))) [
          | inl f ↦ rw (e, after_phase, f) v
          | inr (p, f) ↦
              let (at, on) = armed-known t (turn_seat h) p f in
              rw (e, after_phase, f) (armed p b (turn b) on (player_at-seat t (turn_seat h) p v at))
        ]
    by_phase deal_pending e =
        rw (e, after_phase) (Sound-same t (await_street d h t) (core-await_street d h t) v)
    by_phase showing e = rw (e, after_phase) v
    by_phase result e = rw (e, after_phase) (end_hand-Sound d h t v i e)

-- With as many automatic actions left as players owe one, the table does not run out of them.
after_actions-Sound :
    (n : ℕ) (d : Deps) (t : Table) (h : Hand)
    → t.hand ≡ some h
    → Sound t
    → Enough n h
    → Ensures Sound (after_actions n d t)
unfolding after_actions
after_actions-Sound zero d t h e v few =
    let (inv, turn) : SoundHand (some h) = subst SoundHand e v.1 in
    rw (e, after_actions)
      (after_phase-Sound zero (λ u. panic) d h t
        (λ p b (i, q, acts, at, owes) on seat.
          absurd (omega (arith, few b, some_owes h h.players i q at owes)))
        v inv turn)
after_actions-Sound (suc n) d t h e v few =
    let (inv, turn) : SoundHand (some h) = subst SoundHand e v.1 in
    rw (e, after_actions)
      (after_phase-Sound n (after_actions n d) d h t
        (λ p b now on seat.
          pre_action-Sound n (after_actions n d) h p t
            (λ u k f w enough. after_actions-Sound n d u k f w enough) v inv b now (few b) on seat)
        v inv turn)

owing-le : (price : ℕ) (ps : List Player) → sum_by (weight price) ps ≤ length ps
owing-le price [] = omega arith
owing-le price (p ∷ ps) = ground (arith, owing-le price ps)

pub after_engine-Sound : (d : Deps) (t : Table) → Sound t → Ensures Sound (after_engine d t)
unfolding after_engine
after_engine-Sound d t v = elim (Option-cases t.hand) [
  | inl e ↦ rw (e, Ensures, after_engine) v
  | inr (h, e) ↦
      rw (e, Ensures, after_engine)
        (after_actions-Sound (length h.players) d t h e v (λ b. owing-le h.current_bet h.players))
]

-- A call of the engine that keeps the hand valid.
pub play-Sound :
    (d : Deps) (chips : ℕ) (m : Outcome Types.Error Run) (t : Table)
    → Sound t
    → Ensures (Good chips) m
    → Whenever Leads m
    → Ensures Sound (play d m t)
unfolding play
play-Sound d chips (ok r) t v g l = after_engine-Sound d (take_run r t) (take_run-Sound r t v g.0 l)
play-Sound d chips (refused e) t v g l = tt
play-Sound d chips panic t v g l = absurd g
