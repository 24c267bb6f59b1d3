-- ===== src/Poker/Hand/Calls.antt =====
-- hand.go: the calls that are not a player's turn: dealing a street, running it twice, the staged
-- showdown, showing cards after the hand and leaving it.
use showdown.Base.{
  ℕ, zero, suc, ◌+◌, ◌-◌, ◌*◌, Bool, true, false, not, ◌&&◌, ◌||◌, List, [], ◌∷◌, ◌++◌, Option,
  none, some, ltb, leb, ◌==◌, if◌then◌else◌, length, get_elem?, map,
}
use showdown.Base.Int.{pos}
use showdown.Base.Outcome.{Outcome, ok, refused, panic, ◌>>=◌}
use showdown.Poker.Card.{Card}
use showdown.Poker.Types.{
  Player, fold, Street, betting, Error, unknown_seat, wrong_phase, illegal_action, acted,
  street_dealt, hands_revealed, mucked, SeatResult, Reveal, preflop,
}
use showdown.Poker.Hand.State.{
  Hand, Run, emit, is_betting, is_deal_pending, is_showing, is_result, by_seat, modify_seat,
  index_from, live, count, draw,
}
use showdown.Poker.Hand.Round.{round_complete}
use showdown.Poker.Hand.Show.{reveal, must_show, left_of_button}
use showdown.Poker.Hand.Award.{award_pots}
use showdown.Poker.Hand.Turn.{
  is_river, is_flop, next_street, start_showdown, settle, last_live, finish_last, end_street,
}

-- `CanRunItTwice`
unfoldable pub can_run_it_twice : Hand → Bool
can_run_it_twice h =
    is_deal_pending h.phase
    && (h.runout
        && (not h.run_twice
            && (ltb 0 (5 - length h.board)
                && leb (h.deck_pos + 2 * (5 - length h.board)) (length h.deck))))

-- `RunItTwice`
unfoldable pub run_it_twice : Hand → Outcome Error Hand
unfolding can_run_it_twice
run_it_twice h =
    if can_run_it_twice h
    then ok (record h { run_twice = true; board2 = h.board })
    else refused wrong_phase

-- `n` cards off the deck, in order.
unfoldable pub draw_cards : ℕ → Hand → Outcome Error (Hand × List Card)
unfolding draw
draw_cards zero h = ok (h, [])
draw_cards (suc n) h = draw h >>= λ d. draw_cards n d.0 >>= λ r. ok (r.0, d.1 ∷ r.1)

abbrev pub street_cards : Street → ℕ
street_cards s = if is_flop s then 3 else 1

-- The second board of a hand that is run twice.
unfoldable pub deal_second : Run → Outcome Error Run
unfolding emit draw_cards
deal_second (h, es) =
    let second = draw_cards (street_cards h.street) h in
    if h.run_twice
    then (second >>= λ d.
        ok (emit (record (d.0) { board2 = d.0.board2 ++ d.1 }, es) (street_dealt h.street d.1 2)))
    else ok (h, es)

abbrev pub fresh_round : Player → Player
fresh_round p = record p { has_acted = false; acted_at_full_level = 0 }

-- The end of `Advance` where players can still bet.
unfoldable pub open_round : Run → Outcome Error Run
open_round (h, es) =
    settle
      (
        record h {
          current_bet = 0;
          last_full_bet_level = 0;
          last_raise_size = h.cfg.big_blind;
          aggressor = none;
          players = map fresh_round h.players;
          phase = betting;
        },
        es,
      )
      (left_of_button h) true

-- What follows the cards of a street.
unfoldable pub play_on : Run → Outcome Error Run
unfolding open_round
play_on (h, es) =
    let shown = start_showdown (h, es) in
    let opened = open_round (h, es) in
    if h.runout then (if is_river h.street then shown else ok (h, es)) else opened

unfoldable pub deal_street : Hand → Street → Outcome Error Run
unfolding emit draw_cards deal_second play_on
deal_street h s = draw_cards (street_cards s) (record h { street = s }) >>= λ d.
    deal_second (emit (record (d.0) { board = d.0.board ++ d.1 }, []) (street_dealt s d.1 0))
    >>= λ run. play_on run

-- `h.Advance`. No hand waits for a street behind the river.
unfoldable pub advance : Hand → Outcome Error Run
unfolding deal_street
advance h =
    let dealt : Outcome Error Run = elim (next_street h.street) [
      | none ↦ panic
      | some s ↦ deal_street h s
    ] in
    if is_deal_pending h.phase then dealt else refused wrong_phase

-- `ShowdownPending`
unfoldable pub showdown_pending : Hand → ℕ
showdown_pending h =
    if is_showing h.phase
    then elim h.show_order [ none ↦ 0 | some order ↦ length order - h.show_idx ]
    else 0

-- The player at `showIdx` shows or mucks; the seat stands for the pointer.
unfoldable pub show_or_muck : Run → Player → Bool → Outcome Error Run
unfolding emit
show_or_muck (h, es) p true = reveal h.board p >>= λ r. ok (
    emit
      (record h { players = modify_seat p.seat (λ q. record q { revealed = true }) h.players }, es)
      (hands_revealed (r ∷ [])))
show_or_muck (h, es) p false = ok (
    emit (record h { players = modify_seat p.seat (λ q. record q { mucked = true }) h.players }, es)
      (mucked p.seat))

unfoldable pub show_turn : Run → Player → Outcome Error Run
unfolding show_or_muck
show_turn (h, es) p =
    let decided = must_show h p >>= λ b. show_or_muck (h, es) p b in
    if p.revealed then ok (h, es) else decided

-- After the last player of the order the pots are awarded.
unfoldable pub after_show : List ℕ → Run → Outcome Error Run
after_show order (h, es) =
    let awarded = award_pots (h, es) in
    if leb (length order) h.show_idx then awarded else ok (h, es)

unfoldable pub reveal_at : Hand → List ℕ → Outcome Error Run
unfolding show_turn after_show
reveal_at h order = elim (get_elem? order h.show_idx) [
  | none ↦ panic
  | some seat ↦ elim (by_seat h.players seat) [
    | none ↦ panic
    | some p ↦ show_turn (record h { show_idx = h.show_idx + 1 }, []) p >>= after_show order
  ]
]

-- `h.RevealNext`
unfoldable pub reveal_next : Hand → Outcome Error Run
unfolding reveal_at
reveal_next h =
    let shown : Outcome Error Run = elim h.show_order [
      | none ↦ panic
      | some order ↦ reveal_at h order
    ] in
    if is_showing h.phase then shown else refused wrong_phase

-- `h.CanShowCards`
unfoldable pub can_show_cards : Hand → ℕ → Bool
can_show_cards h seat = elim (by_seat h.players seat) [
  | none ↦ false
  | some p ↦ is_result h.phase && (not p.folded && not p.revealed)
]

-- The entry of the results for a seat that shows both cards.
abbrev pub with_cards : ℕ → Reveal → List SeatResult → List SeatResult
with_cards seat r [] = []
with_cards seat r (s ∷ ss) =
    if s.seat == seat
    then record s { revealed = true; cards = r.cards; description = r.description; best = r.best }
      ∷ ss
    else s ∷ with_cards seat r ss

abbrev pub show_some : Bool → Bool → Player → Player
show_some first second p = record p { shown0 = p.shown0 || first; shown1 = p.shown1 || second }

abbrev pub show_whole : Bool → Bool → Player → Player
show_whole first second p = record (show_some first second p) { revealed = true }

-- Both cards are on the table: the results are completed.
unfoldable pub show_both : Hand → Player → Bool → Bool → Outcome Error Run
unfolding emit
show_both h p first second = elim h.results [
  | none ↦ panic
  | some res ↦ reveal h.board p >>= λ r. ok (
      emit
        (
          record h {
            players = modify_seat p.seat (show_whole first second) h.players;
            results = some (record res { seats = with_cards p.seat r res.seats });
          },
          [],
        )
        (hands_revealed (r ∷ [])))
]

unfoldable pub show_one : Hand → Player → Bool → Bool → Run
unfolding emit
show_one h p first second =
    emit (record h { players = modify_seat p.seat (show_some first second) h.players }, [])
      (hands_revealed (
        record {
          seat = p.seat;
          cards = p.hole0 ∷ p.hole1 ∷ [];
          description = [];
          best = [];
          shown0 = p.shown0 || first;
          shown1 = p.shown1 || second;
        }
        ∷ []))

-- `h.ShowCards`
unfoldable pub show_cards : Hand → ℕ → Bool → Bool → Outcome Error Run
unfolding show_both show_one
show_cards h seat first second = elim (by_seat h.players seat) [
  | none ↦ refused unknown_seat
  | some p ↦
      let both = show_both h p first second in
      if not (is_result h.phase)
      then refused wrong_phase
      else if p.folded || (p.revealed || (not first && not second))
      then refused illegal_action
      else if (first && (p.shown0 && not second)) || (second && (p.shown1 && not first))
      then refused illegal_action
      else if (p.shown0 || first) && (p.shown1 || second)
      then both
      else ok (show_one h p first second)
]

abbrev pub leave : Player → Player
leave p = record p { folded = true; last_action = some (record { kind = fold; amount = pos 0 }) }

-- The end of `Forfeit` where at least two players are left and the hand is in a betting round.
unfoldable pub leave_turn : Run → Option ℕ → Option ℕ → Outcome Error Run
leave_turn (h, es) none acting =
    let over = end_street (h, es) in if round_complete h then over else ok (h, es)
leave_turn (h, es) (some i) none =
    let over = end_street (h, es) in if round_complete h then over else ok (h, es)
leave_turn (h, es) (some i) (some j) =
    let over = end_street (h, es) in
    let settled = settle (h, es) i false in
    if j == i then settled else if round_complete h then over else ok (h, es)

unfoldable pub after_leaving : Run → ℕ → Outcome Error Run
unfolding finish_last last_live leave_turn
after_leaving (h, es) seat =
    let finished = finish_last (record h { phase = betting }, es) (last_live h.players none) in
    let left = leave_turn (h, es) (index_from 0 seat h.players) h.to_act in
    if count live h.players == 1 then finished else if is_betting h.phase then left else ok (h, es)

-- `h.Forfeit`; nothing happens to a seat that is not in the hand any more.
unfoldable pub forfeit : Hand → ℕ → Outcome Error Run
unfolding emit after_leaving
forfeit h seat = elim (by_seat h.players seat) [
  | none ↦ ok (h, [])
  | some p ↦
      let left =
        after_leaving
          (emit (record h { players = modify_seat seat leave h.players }, [])
            (acted seat fold 0 false preflop))
          seat in
      if p.folded || (is_result h.phase || is_showing h.phase) then ok (h, []) else left
]
