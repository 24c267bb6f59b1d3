-- ===== src/Poker/Hand/Moves.antt =====
-- hand.go: what a player may do (`Options`) and what an action does to the chips (`perform`).
use showdown.Base.{
  ℕ, ◌+◌, ◌-◌, min, true, false, not, ◌&&◌, ◌||◌, Option, none, some, ltb, leb, ◌==◌, if◌then◌else◌,
  get_elem?, modify,
}
use showdown.Base.Int.{ℤ, pos, pos_part, leb_ℤ}
use showdown.Base.Outcome.{Outcome, ok, refused, panic, ◌>>=◌}
use showdown.Poker.Types.{
  Player, Action, ActionKind, fold, check, call, bet, raise, all_in, Error, illegal_action,
  amount_out_of_range, Options, RaiseRange,
}
use showdown.Poker.Hand.State.{Hand, is_betting}
use showdown.Poker.Hand.Round.{may_raise}

-- The index and the player if it is the turn of `seat`.
unfoldable pub turn_of : Hand → ℕ → Outcome Error (Option (ℕ × Player))
turn_of h seat =
    if is_betting h.phase
    then elim h.to_act [
      | none ↦ ok none
      | some i ↦ elim (get_elem? h.players i) [
        | none ↦ panic
        | some p ↦ ok (if p.seat == seat then some (i, p) else none)
      ]
    ]
    else ok none

-- `h.MinRaiseTo`
abbrev pub min_raise_to : Hand → ℕ
min_raise_to h = h.current_bet + h.last_raise_size

abbrev pub max_to : Player → ℕ
max_to p = p.bet + p.stack

abbrev raise_range : ℕ → ℕ → Option RaiseRange
raise_range lo hi = if leb lo hi then some (record { min_to = lo; max_to = hi }) else none

abbrev pub no_options : Options
no_options = record { fold = false; check = false; call = 0; raise = none; all_in = 0 }

-- `Options` for the player to act. What is to call is 0 where the source has a negative number.
unfoldable pub options_of : Hand → Player → Options
options_of h p =
    if h.current_bet == 0
    then record base { raise = raise_range h.cfg.big_blind (max_to p); all_in = max_to p }
    else if may_raise h p && ltb h.current_bet (max_to p)
    then record base { raise = raise_range (min_raise_to h) (max_to p); all_in = max_to p }
    else if leb (p.stack + p.bet) h.current_bet
    then record base { all_in = max_to p }
    else base
  where
    to_call : ℕ
    to_call = h.current_bet - p.bet

    base : Options
    base = record {
      fold = true;
      check = leb to_call 0;
      call = (if leb to_call 0 then 0 else min to_call p.stack);
      raise = none;
      all_in = 0;
    }

-- `h.Options`
unfoldable pub options : Hand → ℕ → Outcome Error Options
unfolding options_of turn_of
options h seat =
    turn_of h seat >>= λ mine. ok (elim mine [ none ↦ no_options | some (i, p) ↦ options_of h p ])

-- `h.commit`
abbrev pub commit_chips : ℕ → Player → Player
commit_chips add p = record p {
  stack = p.stack - add;
  bet = p.bet + add;
  all_in = p.stack - add == 0;
}

abbrev pub commit : Hand → ℕ → ℕ → Hand
commit h i add = record h { players = modify i (commit_chips add) h.players }

-- The kind and the amount that count: a bet over a bet is a raise and the other way round, and
-- all-in is what it amounts to.
unfoldable pub effective : Hand → Player → Action → ActionKind × ℤ
effective h p a = resolve a.kind
  where
    resolve : ActionKind → ActionKind × ℤ
    resolve bet = if ltb 0 h.current_bet then (raise, a.amount) else (bet, a.amount)
    resolve raise = if h.current_bet == 0 then (bet, a.amount) else (raise, a.amount)
    resolve all_in =
        if h.current_bet == 0
        then (bet, pos (max_to p))
        else if leb (max_to p) h.current_bet
        then (call, a.amount)
        else (raise, pos (max_to p))
    resolve k = (k, a.amount)

unfoldable pub perform_bet : Hand → ℕ → Player → ℤ → Outcome Error (Hand × ActionKind)
perform_bet h i p amount =
    if not (h.current_bet == 0)
    then refused illegal_action
    else if leb_ℤ amount (pos 0)
        || (ltb (max_to p) amt || (ltb amt h.cfg.big_blind && not (amt == max_to p)))
    then refused amount_out_of_range
    else ok (
      (if leb h.cfg.big_blind amt
          then record placed { last_raise_size = amt; last_full_bet_level = amt }
          else placed),
      bet,
    )
  where
    amt : ℕ
    amt = pos_part amount

    placed : Hand
    placed = record (commit h i amt) { current_bet = amt }

unfoldable pub perform_raise : Hand → ℕ → Player → ℤ → Outcome Error (Hand × ActionKind)
perform_raise h i p amount =
    if not (may_raise h p) || leb (max_to p) h.current_bet
    then refused illegal_action
    else if leb_ℤ amount (pos h.current_bet)
        || (ltb (max_to p) amt || (ltb amt (min_raise_to h) && not (amt == max_to p)))
    then refused amount_out_of_range
    else ok (
      (if leb (min_raise_to h) amt
          then record placed {
            last_raise_size = amt - h.current_bet;
            last_full_bet_level = amt;
            current_bet = amt;
          }
          else record placed { current_bet = amt }),
      raise,
    )
  where
    amt : ℕ
    amt = pos_part amount

    placed : Hand
    placed = commit h i (amt - p.bet)

-- The switch of `perform`, for the player `p` at the index `i`.
unfoldable pub perform_as : Hand → ℕ → Player → ActionKind → ℤ → Outcome Error (Hand × ActionKind)
unfolding perform_bet perform_raise
perform_as h i p fold amount =
    ok (record h { players = modify i (λ q. record q { folded = true }) h.players }, fold)
perform_as h i p check amount =
    if ltb p.bet h.current_bet then refused illegal_action else ok (h, check)
perform_as h i p call amount =
    if ltb p.bet h.current_bet
    then ok (commit h i (min (h.current_bet - p.bet) p.stack), call)
    else refused illegal_action
perform_as h i p bet amount = perform_bet h i p amount
perform_as h i p raise amount = perform_raise h i p amount
perform_as h i p _ amount = refused illegal_action

-- `h.perform`
unfoldable pub perform : Hand → ℕ → Player → Action → Outcome Error (Hand × ActionKind)
unfolding effective perform_as
perform h i p a = let (kind, amount) = effective h p a in perform_as h i p kind amount
