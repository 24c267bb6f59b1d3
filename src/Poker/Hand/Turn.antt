-- ===== src/Poker/Hand/Turn.antt =====
-- hand.go: the calls that move a hand on, and what they share: `settle` and `endStreet`.
use showdown.Base.{
  ℕ, ◌-◌, Bool, true, false, not, ◌||◌, List, [], ◌∷◌, ◌++◌, Option, none, some, ltb, ◌==◌,
  if◌then◌else◌, get_elem?, modify, map, any,
}
use showdown.Base.Int.{pos}
use showdown.Base.Outcome.{Outcome, ok, refused, panic, ◌>>=◌}
use showdown.Poker.Types.{
  Player, Action, ActionKind, fold, check, call, bet, raise, Street, preflop, flop, turn, river,
  deal_pending, showing, Error, not_your_turn, unknown_seat, acted, timed_out, pots_updated,
}
use showdown.Poker.Hand.State.{Hand, Run, emit, is_betting, by_seat, live, active, count, pots}
use showdown.Poker.Hand.Round.{next_actor, round_complete, return_uncalled, collect}
use showdown.Poker.Hand.Moves.{turn_of, perform}
use showdown.Poker.Hand.Show.{reveal_everyone, values_on, winners_of, showdown_order}
use showdown.Poker.Hand.Award.{finish_uncontested, award_pots}

abbrev pub is_river : Street → Bool
is_river river = true
is_river _ = false

abbrev pub is_flop : Street → Bool
is_flop flop = true
is_flop _ = false

-- `h.street++`; there is no street behind the river, and no hand deals one.
abbrev pub next_street : Street → Option Street
next_street preflop = some flop
next_street flop = some turn
next_street turn = some river
next_street river = none

-- Some player of the order is not on the table yet.
abbrev pub is_pending : List Player → List ℕ → Bool
is_pending ps order =
    any (λ s. elim (by_seat ps s) [ none ↦ false | some p ↦ not p.revealed ]) order

-- The staged showdown: every seat that wins a pot is noted, and the order is kept.
unfoldable pub stage : Run → List ℕ → Outcome Error Run
unfolding pots values_on
stage (h, es) order = values_on h.players h.board >>= λ vs. ok (
  record h {
    show_winner = seats_of (map (winners_of h.cfg.button_seat vs) (pots h.players));
    show_order = some order;
    show_idx = 0;
    phase = showing;
  },
  es,
)
  where
    seats_of : List (List ℕ) → List ℕ
    seats_of [] = []
    seats_of (ws ∷ wss) = ws ++ seats_of wss

-- `h.showdown`
unfoldable pub start_showdown : Run → Outcome Error Run
unfolding stage
start_showdown (h, es) =
    let here = record h { to_act = none } in
    showdown_order here >>= λ order.
    (let staged = stage (here, es) order in
      let awarded = award_pots (here, es) in if is_pending h.players order then staged else awarded)

-- The end of `endStreet` before the river: the next street is pending, and with fewer than two
-- players who can still act the hands are shown.
unfoldable pub await_deal : Run → Outcome Error Run
await_deal (h, es) =
    let waiting = record h { phase = deal_pending } in
    let shown = reveal_everyone (record waiting { runout = true }, es) in
    if ltb (count active h.players) 2 then shown else ok (waiting, es)

unfoldable pub street_over : Run → Outcome Error Run
unfolding await_deal
street_over (h, es) =
    let here = record h { to_act = none } in
    let shown = start_showdown (here, es) in
    let waiting = await_deal (here, es) in if is_river h.street then shown else waiting

-- `h.endStreet`
unfoldable pub end_street : Run → Outcome Error Run
unfolding street_over emit
end_street run =
    let (h, es) = return_uncalled run in
    street_over (emit (collect h, es) (pots_updated (pots (collect h).players)))

-- The last live player that the loop of `settle` meets.
unfoldable pub last_live : List Player → Option ℕ → Option ℕ
last_live [] last = last
last_live (p ∷ ps) last = last_live ps (if live p then some p.seat else last)

unfoldable pub finish_last : Run → Option ℕ → Outcome Error Run
finish_last run none = panic
finish_last run (some seat) = finish_uncontested run seat

unfoldable pub hand_turn : Run → Option ℕ → Outcome Error Run
hand_turn (h, es) none = panic
hand_turn (h, es) (some i) = ok (record h { to_act = some i }, es)

-- `h.settle`
unfoldable pub settle : Run → ℕ → Bool → Outcome Error Run
unfolding finish_last hand_turn last_live
settle (h, es) from inclusive =
    let finished = finish_last (h, es) (last_live h.players none) in
    let over = end_street (h, es) in
    let turn_on = hand_turn (h, es) (next_actor h from inclusive) in
    if not (is_betting h.phase)
    then ok (h, es)
    else if count live h.players == 1
    then finished
    else if round_complete h
    then over
    else turn_on

-- The bet in front of the player at an index.
abbrev pub bet_at : List Player → ℕ → ℕ
bet_at ps i = elim (get_elem? ps i) [ none ↦ 0 | some p ↦ p.bet ]

abbrev pub all_in_at : List Player → ℕ → Bool
all_in_at ps i = elim (get_elem? ps i) [ none ↦ false | some p ↦ p.all_in ]

-- The amount that an action reports: what a call added, or the total of a bet or raise.
abbrev pub acted_amount : ActionKind → ℕ → ℕ → ℕ
acted_amount call before after = after - before
acted_amount bet before after = after
acted_amount raise before after = after
acted_amount _ before after = 0

abbrev pub is_aggressive : ActionKind → Bool
is_aggressive bet = true
is_aggressive raise = true
is_aggressive _ = false

-- What a decision leaves in the player.
abbrev pub note_action : ℕ → ActionKind → ℕ → Player → Player
note_action level kind amount p = record p {
  has_acted = true;
  acted_at_full_level = level;
  last_action = some (record { kind = kind; amount = pos amount });
}

-- `Apply` behind `perform`: the decision is recorded and the hand settled.
unfoldable pub after_move : ℕ → Player → Hand → ActionKind → Outcome Error Run
unfolding emit
after_move i p h kind =
    let amount = acted_amount kind p.bet (bet_at h.players i) in
    settle
      (emit
        (
          record h {
            players = modify i (note_action h.last_full_bet_level kind amount) h.players;
            aggressor = (if is_aggressive kind then some i else h.aggressor);
          },
          [],
        )
        (acted p.seat kind amount (all_in_at h.players i) h.street))
      i false

-- `h.Apply`
unfoldable pub apply : Hand → ℕ → Action → Outcome Error Run
unfolding perform after_move turn_of
apply h seat a = elim (by_seat h.players seat) [
  | none ↦ refused unknown_seat
  | some _ ↦ turn_of h seat >>= λ mine. elim mine [
    | none ↦ refused not_your_turn
    | some (i, p) ↦ perform h i p a >>= λ r. after_move i p r.0 r.1
  ]
]

unfoldable pub time_out : Hand → ℕ → Player → Outcome Error Run
unfolding emit
time_out h i p =
    let kind = (if p.bet == h.current_bet then check else fold) in
    let decide = λ (q : Player).
      note_action h.last_full_bet_level kind 0
        (record q { folded = q.folded || not (p.bet == h.current_bet) }) in
    settle (emit (record h { players = modify i decide h.players }, []) (timed_out p.seat kind)) i
      false

-- `h.Timeout`; the hand is left as it is, with no event, when it is not the seat's turn.
unfoldable pub timeout : Hand → ℕ → Outcome Error Run
unfolding time_out turn_of
timeout h seat =
    turn_of h seat >>= λ mine. elim mine [ none ↦ ok (h, []) | some (i, p) ↦ time_out h i p ]
