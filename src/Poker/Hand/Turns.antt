-- ===== src/Poker/Hand/Turns.antt =====
-- hand.go: in a betting round somebody owes an action, and it is that player's turn.
use showdown.Base.{
  ℕ, ◌≡◌, ◌⊎◌, inl, inr, refl, Bool, true, false, ◌&&◌, List, [], ◌∷◌, Option, none, some,
  get_elem?, filter, any, ltb, if_both, Bool-cases, ◌==◌,
}
use showdown.Base.Outcome.{Outcome, ok, refused, panic, traverse, Whenever, Whenever-bind}
use showdown.Poker.Types.{Player, Event, PotAward, Error, deal_pending, Reveal, pots_updated}
use showdown.Poker.Pots.{Pot}
use showdown.Poker.Hand.State.{Hand, Run, emit, is_betting, count, live, active, pots}
use showdown.Poker.Hand.Round.{needs_to_act, next_actor, round_complete, return_uncalled, collect}
use showdown.Poker.Hand.Scan.{scan_sound}
use showdown.Poker.Hand.Show.{
  showdown_order, reveal, reveal_where, reveal_everyone, to_reveal, mem, values_on,
}
use showdown.Poker.Hand.Award.{
  finish, report, finish_for, finish_uncontested, award_to, award_pots, pay_pots, second_values,
  winning_seats, announce,
}
use showdown.Poker.Hand.Turn.{
  stage, start_showdown, await_deal, street_over, end_street, finish_last, hand_turn, last_live,
  settle, is_pending, is_river,
}

-- It is the turn of a player who owes an action.
abbrev pub Turn : Hand → Type 0
Turn h =
    (i : ℕ) × (p : Player) × (h.to_act ≡ some i)
    × (get_elem? h.players i ≡ some p)
    × (needs_to_act h.current_bet p ≡ true)

abbrev pub TurnOk : Hand → Type 0
TurnOk h = is_betting h.phase ≡ true → Turn h

-- The betting round is over.
abbrev pub Rests : Run → Type 0
Rests r = is_betting r.0.phase ≡ false

-- The betting round is over, or it goes on with the same players and the same bet.
abbrev pub Settled : Hand → Run → Type 0
Settled h r = Rests r ⊎ (Turn r.0 × (r.0.players ≡ h.players) × (r.0.current_bet ≡ h.current_bet))

pub Rests-TurnOk : (r : Run) → Rests r → TurnOk r.0
Rests-TurnOk r h b = cc (h, b)

pub Settled-TurnOk : (h : Hand) (r : Run) → Settled h r → TurnOk r.0
Settled-TurnOk h r (inl rests) = Rests-TurnOk r rests
Settled-TurnOk h r (inr (turn, _, _)) = λ b. turn

finish-Rests :
    (run : Run) (awards : List PotAward) (final : List Pot)
    → Whenever Rests (finish run awards final)
unfolding finish emit
finish-Rests (h, es) awards final =
    Whenever-bind Rests (traverse (report h.board) h.players) _ (λ rs. refl)

finish_uncontested-Rests : (run : Run) (seat : ℕ) → Whenever Rests (finish_uncontested run seat)
unfolding finish_uncontested finish_for
finish_uncontested-Rests run seat =
    let h = collect (return_uncalled run).0 in
    let final = pots h.players in
    let r = award_to seat 0 final (emit (h, (return_uncalled run).1) (pots_updated final)) in
    finish-Rests r.0 r.1 final

pub award_pots-Rests : (run : Run) → Whenever Rests (award_pots run)
unfolding award_pots
award_pots-Rests (h, es) = Whenever-bind Rests (values_on h.players h.board) _ (λ vs.
    Whenever-bind Rests (second_values h) _ (λ vs2.
      Whenever-bind Rests (pay_pots h.cfg.button_seat vs vs2 0 (pots h.players) h.players) _
        (λ paid.
          Whenever-bind Rests
            (reveal_where
              (λ p.
                to_reveal p
                && any (mem p.seat) (winning_seats h.cfg.button_seat vs vs2 (pots h.players)))
              (record h { players = paid.0 }, es))
            _ (λ shown. finish-Rests (announce paid.1 shown) paid.1 (pots h.players)))))

pub finish_last-Rests : (run : Run) (o : Option ℕ) → Whenever Rests (finish_last run o)
unfolding finish_last
finish_last-Rests run none = tt
finish_last-Rests run (some seat) = finish_uncontested-Rests run seat

pub start_showdown-Rests : (run : Run) → Whenever Rests (start_showdown run)
unfolding start_showdown stage
start_showdown-Rests (h, es) =
    Whenever-bind Rests (showdown_order (record h { to_act = none })) _ (λ order.
      if_both (Whenever Rests) (is_pending h.players order)
        (λ _. Whenever-bind Rests (values_on h.players h.board) _ (λ vs. refl))
        (λ _. award_pots-Rests (record h { to_act = none }, es)))

reveal_where-Rests :
    (t : Player → Bool) (h : Hand) (es : List Event)
    → is_betting h.phase ≡ false
    → Whenever Rests (reveal_where t (h, es))
unfolding reveal_where emit
reveal_where-Rests t h es rests = by_reveals (traverse (reveal h.board) (filter t h.players)) refl
  where
    by_reveals :
        (m : Outcome Error (List Reveal))
        → traverse (reveal h.board) (filter t h.players) ≡ m
        → Whenever Rests (reveal_where t (h, es))
    by_reveals (ok []) e = rw (e, reveal_where) rests
    by_reveals (ok (r ∷ rs)) e = rw (e, reveal_where) rests
    by_reveals (refused x) e = rw (e, reveal_where) tt
    by_reveals panic e = rw (e, reveal_where) tt

await_deal-Rests : (run : Run) → Whenever Rests (await_deal run)
unfolding await_deal reveal_everyone
await_deal-Rests (h, es) =
    if_both (Whenever Rests) (ltb (count active h.players) 2)
      (λ _. reveal_where-Rests to_reveal (record h { phase = deal_pending; runout = true }) es refl)
      (λ _. refl)

pub end_street-Rests : (run : Run) → Whenever Rests (end_street run)
unfolding end_street street_over
end_street-Rests run =
    let h = collect (return_uncalled run).0 in
    let told : Run = emit (h, (return_uncalled run).1) (pots_updated (pots h.players)) in
    let here : Run = (record (told.0) { to_act = none }, told.1) in
    if_both (Whenever Rests) (is_river told.0.street) (λ _. start_showdown-Rests here)
      (λ _. await_deal-Rests here)

pub settle-Settled :
    (h : Hand) (es : List Event) (from : ℕ) (inclusive : Bool)
    → is_betting h.phase ≡ true
    → Whenever (Settled h) (settle (h, es) from inclusive)
unfolding settle hand_turn next_actor
settle-Settled h es from inclusive b = elim (Bool-cases (count live h.players == 1)) [
  | inl one ↦ rw (b, one) (weaken _ (finish_last-Rests (h, es) (last_live h.players none)))
  | inr more ↦ elim (Bool-cases (round_complete h)) [
    | inl r ↦ rw (b, more, r) (weaken _ (end_street-Rests (h, es)))
    | inr r ↦ rw (b, more, r) (turn_on (next_actor h from inclusive) refl)
  ]
]
  where
    weaken : (m : Outcome Error Run) → Whenever Rests m → Whenever (Settled h) m
    weaken (ok r) rests = inl rests
    weaken (refused e) rests = tt
    weaken panic rests = tt

    turn_on :
        (o : Option ℕ)
        → next_actor h from inclusive ≡ o
        → Whenever (Settled h) (hand_turn (h, es) o)
    turn_on none e = tt
    turn_on (some i) e =
        let (p, at, owes) = scan_sound (needs_to_act h.current_bet) h.players _ _ i e in
        inr ((i, p, refl, at, owes), refl, refl)
