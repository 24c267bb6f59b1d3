-- ===== src/Poker/Hand/Award.antt =====
-- hand.go: paying the pots and finishing the hand.
use showdown.Base.{
  ℕ, suc, ◌+◌, ◌-◌, ◌*◌, ◌/◌, ◌&&◌, List, [], ◌∷◌, ◌++◌, Option, none, some, ltb, if◌then◌else◌,
  length, map, any,
}
use showdown.Base.Int.{sub_ℕ}
use showdown.Base.Outcome.{Outcome, ok, panic, ◌>>=◌, traverse}
use showdown.Base.Text.{Text}
use showdown.Poker.Card.{Card}
use showdown.Poker.Pots.{Pot}
use showdown.Poker.Words.{describe}
use showdown.Poker.Types.{
  Player, PotAward, PotWinner, SeatResult, Results, Error, pot_awarded, hand_ended, pots_updated,
  result,
}
use showdown.Poker.Hand.State.{Hand, Run, emit, by_seat, modify_seat, pots}
use showdown.Poker.Hand.Round.{return_uncalled, collect}
use showdown.Poker.Hand.Show.{
  Values, reveal, reveal_where, to_reveal, values_on, value_of_seat, winners_of, mem,
}

abbrev pub win : ℕ → Player → Player
win amount p = record p { stack = p.stack + amount; won = p.won + amount }

seat_result : Player → SeatResult
seat_result p = record {
  seat = p.seat;
  start_stack = p.start_stack;
  end_stack = p.stack;
  net = sub_ℕ p.stack p.start_stack;
  won = p.won;
  folded = p.folded;
  all_in = p.all_in;
  revealed = p.revealed;
  cards = [];
  description = [];
  best = [];
}

-- A revealed hand is reported with its cards.
unfoldable pub report : List Card → Player → Outcome Error SeatResult
unfolding seat_result
report board p =
    let shown = reveal board p in
    if p.revealed
    then (shown >>= λ r.
        ok (record (seat_result p) { cards = r.cards; description = r.description; best = r.best }))
    else ok (seat_result p)

abbrev pub spend : Player → Player
spend p = record p { committed = 0 }

-- `h.finish`
unfoldable pub finish : Run → List PotAward → List Pot → Outcome Error Run
unfolding emit report
finish (h, es) awards final = do
  seats ← traverse (report h.board) h.players
  ok (close (record { pots = awards; seats = seats }))
  where
    close : Results → Run
    close res =
        emit
          (
            record h {
              players = map spend h.players;
              final_pots = final;
              results = some res;
              phase = result;
              to_act = none;
            },
            es,
          )
          (hand_ended res)

-- The loop of `finishUncontested` over the pots, `i` the index of the first.
unfoldable pub award_to : ℕ → ℕ → List Pot → Run → Run × List PotAward
unfolding emit
award_to seat i [] run = (run, [])
award_to seat i (pot ∷ pots) (h, es) =
    let paid =
      emit (record h { players = modify_seat seat (win pot.amount) h.players }, es)
        (pot_awarded i seat pot.amount [] 0) in
    let (run, awards) = award_to seat (suc i) pots paid in (run, award ∷ awards)
  where
    award : PotAward
    award = record {
      index = i;
      amount = pot.amount;
      winners = record { seat = seat; amount = pot.amount } ∷ [];
      description = [];
      board = 0;
    }

unfoldable pub finish_for : ℕ → Run → Outcome Error Run
unfolding award_to emit finish pots
finish_for seat (h, es) =
    let final = pots h.players in
    let (run, awards) = award_to seat 0 final (emit (h, es) (pots_updated final)) in
    finish run awards final

-- `h.finishUncontested`
unfoldable pub finish_uncontested : Run → ℕ → Outcome Error Run
unfolding return_uncalled finish_for
finish_uncontested run seat = let (h, es) = return_uncalled run in finish_for seat (collect h, es)

-- The loop of `pay` over the winners: the odd chips go to the first ones. A seat that is not in
-- the hand would be a nil dereference.
unfoldable pub pay_seats :
    ℕ → ℕ → List ℕ → List Player → Outcome Error (List Player × List PotWinner)
pay_seats share odd [] ps = ok (ps, [])
pay_seats share odd (seat ∷ ws) ps =
    let amt = (if ltb 0 odd then share + 1 else share) in
    elim (by_seat ps seat) [
      | none ↦ panic
      | some p ↦ pay_seats share (odd - 1) ws (modify_seat seat (win amt) ps) >>= λ rest.
          ok (rest.0, record { seat = seat; amount = amt } ∷ rest.1)
    ]

-- `pay`; a division by no winners panics.
unfoldable pub pay :
    ℕ → ℕ → List ℕ → Text → ℕ → List Player → Outcome Error (List Player × PotAward)
pay i amount [] words board ps = panic
pay i amount (w ∷ ws) words board ps =
    pay_seats (amount / length (w ∷ ws)) (amount - amount / length (w ∷ ws) * length (w ∷ ws))
      (w ∷ ws) ps
    >>= λ r. ok (
      r.0,
      record { index = i; amount = amount; winners = r.1; description = words; board = board },
    )

-- `values[winners[i][0]].Describe()`
abbrev describe_first : Values → List ℕ → Outcome Error Text
describe_first vs [] = panic
describe_first vs (w ∷ ws) = ok (describe (value_of_seat vs w))

-- A pot on one board.
unfoldable pub pay_pot :
    ℕ → Values → ℕ → ℕ → Pot → ℕ → List Player → Outcome Error (List Player × PotAward)
unfolding pay
pay_pot button vs i amount pot board ps = do
  words ← describe_first vs (winners_of button vs pot)
  pay i amount (winners_of button vs pot) words board ps

-- A pot on two boards, the odd chip with the first; an empty half is not paid.
unfoldable pub pay_halves :
    ℕ → Values → Values → ℕ → Pot → List Player → Outcome Error (List Player × List PotAward)
unfolding pay_pot
pay_halves button vs vs2 i pot ps =
    let half = pot.amount / 2 in
    pay_pot button vs i (pot.amount - half) pot 1 ps >>= λ first.
    (let second = pay_pot button vs2 i half pot 2 first.0 in
      if ltb 0 half
      then (second >>= λ r. ok (r.0, first.1 ∷ r.1 ∷ []))
      else ok (first.0, first.1 ∷ []))

-- The loop of `awardPots` over the pots; `vs2` is there when the hand was run twice.
unfoldable pub pay_pots :
    ℕ
    → Values
    → Option Values
    → ℕ
    → List Pot
    → List Player
    → Outcome Error (List Player × List PotAward)
unfolding pay_halves
pay_pots button vs vs2 i [] ps = ok (ps, [])
pay_pots button vs none i (pot ∷ rest) ps = pay_pot button vs i pot.amount pot 0 ps >>= λ r.
    pay_pots button vs none (suc i) rest r.0 >>= λ later. ok (later.0, r.1 ∷ later.1)
pay_pots button vs (some vs2) i (pot ∷ rest) ps = pay_halves button vs vs2 i pot ps >>= λ r.
    pay_pots button vs (some vs2) (suc i) rest r.0 >>= λ later. ok (later.0, r.1 ++ later.1)

-- The events of the awards, one for each winner.
abbrev pub announce_winners : PotAward → List PotWinner → Run → Run
announce_winners a [] run = run
announce_winners a (w ∷ ws) run =
    announce_winners a ws (emit run (pot_awarded a.index w.seat w.amount a.description a.board))

abbrev pub announce : List PotAward → Run → Run
announce [] run = run
announce (a ∷ rest) run = announce rest (announce_winners a a.winners run)

-- The seats that win a pot on either board.
abbrev pub winning_seats : ℕ → Values → Option Values → List Pot → List (List ℕ)
winning_seats button vs none ps = map (winners_of button vs) ps
winning_seats button vs (some vs2) ps =
    map (winners_of button vs) ps ++ map (winners_of button vs2) ps

abbrev pub second_values : Hand → Outcome Error (Option Values)
second_values h =
    let values = values_on h.players h.board2 in
    if h.run_twice then (values >>= λ vs. ok (some vs)) else ok none

-- `h.awardPots`
unfoldable pub award_pots : Run → Outcome Error Run
unfolding pots values_on pay_pots reveal_where emit finish
award_pots (h, es) =
    let final = pots h.players in
    let button = h.cfg.button_seat in
    values_on h.players h.board >>= λ vs. second_values h >>= λ vs2.
    pay_pots button vs vs2 0 final h.players >>= λ paid.
    reveal_where (λ p. to_reveal p && any (mem p.seat) (winning_seats button vs vs2 final))
      (record h { players = paid.0 }, es)
    >>= λ shown. finish (announce paid.1 shown) paid.1 final
