-- ===== src/Poker/Hand/Offers.antt =====
-- What `Options` offers and what `perform` accepts.
use showdown.Base.{
  ℕ, ◌<◌, ◌≡◌, refl, ap, sym, ◌∙◌, inl, inr, Bool, true, false, ◌&&◌, ◌||◌, Option, none, some,
  arith, ltb, leb, ◌==◌, Bool-cases, if_both,
}
use showdown.Base.Int.{ℤ, pos}
use showdown.Base.Outcome.{Outcome, ok, refused, panic}
use showdown.Poker.Types.{
  Player, Action, ActionKind, check, call, bet, raise, all_in, Options, RaiseRange, Error,
}
use showdown.Poker.Hand.State.{Hand}
use showdown.Poker.Hand.Round.{may_raise}
use showdown.Poker.Hand.Moves.{
  options_of, max_to, min_raise_to, effective, perform_bet, perform_raise, perform_as, perform,
}

-- The action is carried out.
abbrev pub accepted : {A : Type 0} → Outcome Error A → Bool
accepted (ok a) = true
accepted (refused e) = false
accepted panic = false

abbrev pub in_range : Option RaiseRange → ℕ → Bool
in_range none amount = false
in_range (some r) amount = leb r.min_to amount && leb amount r.max_to

-- An amount to bet or to raise to that the options offer: one in the range, or the whole stack
-- where that is more than the current bet.
abbrev pub offers : Hand → Options → ℕ → Bool
offers h o amount = in_range o.raise amount || (amount == o.all_in && ltb h.current_bet amount)

abbrev pub doing : ActionKind → ℕ → Action
doing k amount = record { kind = k; amount = pos amount }

module _ (h : Hand) (i : ℕ) (p : Player) (some_chips : 0 < p.stack) where
  check-offered : accepted (perform h i p (doing check 0)) ≡ (options_of h p).check
  unfolding perform effective perform_as options_of
  check-offered = ground arith

  call-offered : accepted (perform h i p (doing call 0)) ≡ ltb 0 (options_of h p).call
  unfolding perform effective perform_as options_of
  call-offered = ground (arith, some_chips)

  all_in-offered : accepted (perform h i p (doing all_in 0)) ≡ ltb 0 (options_of h p).all_in
  unfolding perform effective perform_as perform_bet perform_raise options_of
  all_in-offered = ground (arith, some_chips)

  bet-accepted :
      (amount : ℕ)
      → h.current_bet ≡ 0
      → accepted (perform_bet h i p (pos amount)) ≡ (
          ltb 0 amount
          && (leb amount (max_to p) && (leb h.cfg.big_blind amount || amount == max_to p)))
  unfolding perform_bet
  bet-accepted amount none_bet = ground (arith, none_bet)

  raise-accepted :
      (amount : ℕ)
      → accepted (perform_raise h i p (pos amount)) ≡ (
          may_raise h p
          && (ltb h.current_bet amount
              && (leb amount (max_to p) && (leb (min_raise_to h) amount || amount == max_to p))))
  unfolding perform_raise
  raise-accepted amount = ground arith

  bet-offers :
      (amount : ℕ)
      → h.current_bet ≡ 0
      → 0 < h.cfg.big_blind
      → offers h (options_of h p) amount ≡ (
          ltb 0 amount
          && (leb amount (max_to p) && (leb h.cfg.big_blind amount || amount == max_to p)))
  unfolding options_of
  bet-offers amount none_bet bb = ground (arith, none_bet, bb)

  raise-offers :
      (amount : ℕ)
      → 0 < h.current_bet
      → 0 < h.last_raise_size
      → offers h (options_of h p) amount ≡ (
          may_raise h p
          && (ltb h.current_bet amount
              && (leb amount (max_to p) && (leb (min_raise_to h) amount || amount == max_to p))))
  unfolding options_of
  raise-offers amount some_bet size = ground (arith, some_bet, size)

  -- A raise while nobody has bet is a bet.
  raise-bets :
      (amount : ℕ)
      → (h.current_bet == 0) ≡ true
      → perform h i p (doing raise amount) ≡ perform_bet h i p (pos amount)
  unfolding perform effective perform_as
  raise-bets amount e =
      if_both (λ (k : ActionKind × ℤ). perform_as h i p k.0 k.1 ≡ perform_bet h i p (pos amount))
        (h.current_bet == 0) {x = (bet, pos amount)} {y = (raise, pos amount)} (λ _. refl)
        λ no. absurd (cc)

  raise-raises :
      (amount : ℕ)
      → (h.current_bet == 0) ≡ false
      → perform h i p (doing raise amount) ≡ perform_raise h i p (pos amount)
  unfolding perform effective perform_as
  raise-raises amount e =
      if_both (λ (k : ActionKind × ℤ). perform_as h i p k.0 k.1 ≡ perform_raise h i p (pos amount))
        (h.current_bet == 0) {x = (bet, pos amount)} {y = (raise, pos amount)} (λ yes. absurd (cc))
        λ _. refl

  raise-offered :
      (amount : ℕ)
      → 0 < h.cfg.big_blind
      → 0 < h.last_raise_size
      → accepted (perform h i p (doing raise amount)) ≡ offers h (options_of h p) amount
  raise-offered amount bb size = elim (Bool-cases (h.current_bet == 0)) [
    | inl e ↦
        let none_bet : h.current_bet ≡ 0 = ground (arith, e) in
        ap accepted (raise-bets amount e)
        ∙ bet-accepted amount none_bet
        ∙ sym (bet-offers amount none_bet bb)
    | inr e ↦
        ap accepted (raise-raises amount e)
        ∙ raise-accepted amount
        ∙ sym (raise-offers amount (ground (arith, e)) size)
  ]

  -- For a player with chips, with a positive big blind and last raise, `perform` accepts a check, a
  -- call and an all-in exactly when `Options` offers them, and a raise exactly when its amount is in
  -- the range that is offered or is the whole stack and above the current bet.
  pub perform-offers :
      0 < h.cfg.big_blind
      → 0 < h.last_raise_size
      → (accepted (perform h i p (doing check 0)) ≡ (options_of h p).check)
        × (accepted (perform h i p (doing call 0)) ≡ ltb 0 (options_of h p).call)
        × (accepted (perform h i p (doing all_in 0)) ≡ ltb 0 (options_of h p).all_in)
        × ((amount : ℕ)
            → accepted (perform h i p (doing raise amount)) ≡ offers h (options_of h p) amount)
  perform-offers bb size =
      (check-offered, call-offered, all_in-offered, λ amount. raise-offered amount bb size)
