-- ===== src/Table/Sound/Timers.antt =====
-- hand.go and table.go: the timer of a table, the vote on running it twice and the late reveals keep a
-- table sound.
use showdown.Base.{
  ℕ, ◌+◌, ◌*◌, ◌≡◌, refl, Bool, true, false, not, ◌&&◌, ◌||◌, List, ◌∷◌, Option, none, some, ◌==◌,
  leb, if◌then◌else◌, if_both, any, length,
}
use showdown.Base.Int.{pos_part}
use showdown.Base.Text.{Text}
use showdown.Base.Outcome.{
  Outcome, ok, refused, panic, ◌>>=◌, Ensures, Whenever, Ensures-of_Returns,
}
use showdown.Poker.Types
use showdown.Poker.Types.{wrong_phase}
use showdown.Poker.Hand.State.{Hand, Run, total_chips, is_betting, is_deal_pending, is_showing}
use showdown.Poker.Hand.Turn.{timeout}
use showdown.Poker.Hand.Calls.{advance, reveal_next, run_it_twice, show_cards}
use showdown.Poker.Hand.Views.{remaining_board}
use showdown.Poker.Hand.Inv.{Inv, Good}
use showdown.Poker.Hand.Acts.{timeout-Good}
use showdown.Poker.Hand.Streets.{advance-Good, run_it_twice-Good}
use showdown.Poker.Hand.Reveals.{reveal_next-Good}
use showdown.Poker.Hand.Late.{show_cards-Good}
use showdown.Poker.Hand.Turns.{TurnOk}
use showdown.Poker.Hand.Moments.{
  Leads, timeout-Leads, advance-Leads, reveal_next-Leads, show_cards-Leads, run_it_twice-TurnOk,
}
use showdown.Table.Types.{
  TablePlayer, Table, TableError, Deps, Alarm, start_due, advance_due, reveal_due, vote_over,
  result_due, clear_due, turn_over, from_engine, illegal_action, rabbit_not_allowed, rabbit_hunt,
}
use showdown.Poker.Card.{Card}
use showdown.Table.Seats.{player_at, change_player, is_done, schedule, emit}
use showdown.Table.Finish.{each_seat, all_seats, extend_result_phase}
use showdown.Table.Engine.{engine, play, take_run, vote_complete, resolve_run_twice, has_folded}
use showdown.Table.Deal.{apply_pending_seat_changes}
use showdown.Table.Play.{
  play_logged, advance_hand, reveal_step, bank_starts, bank_turn, spend_bank, after_bank,
  is_turn_of, on_turn_timeout, cleared, clear_hand, ring, fire,
}
use showdown.Table.Players.{guard}
use showdown.Table.Requests.{run_twice, which_cards, show_hole_cards, was_hunted, hunt_rabbit}
use showdown.Table.Sound.{Sound, core, Sound-same, change-Sound, core-change, core-each_seat}
use showdown.Table.Sound.Finishing.{core-extend_result_phase, end_table-Sound, no_hand-Sound}
use showdown.Table.Sound.Playing.{play-Sound, take_run-Sound}
use showdown.Table.Sound.Dealing.{Picks, maybe_start_hand-Sound, apply_pending_seat_changes-Sound}
use showdown.Table.Sound.Commands.{guard-Sound, seated_player-Ensures, hand_of}

play_logged-Sound :
    (d : Deps) (chips : ℕ) (m : Outcome Types.Error Run) (t : Table)
    → Sound t
    → Ensures (Good chips) m
    → Whenever Leads m
    → Ensures Sound (play_logged d m t)
play_logged-Sound d chips (ok r) t v g l = play-Sound d chips (ok r) t v g l
play_logged-Sound d chips (refused e) t v g l = v
play_logged-Sound d chips panic t v g l = absurd g

advance_hand-Sound : (d : Deps) (t : Table) → Sound t → Ensures Sound (advance_hand d t)
unfolding advance_hand
advance_hand-Sound d t v = by_hand t.hand refl
  where
    by_hand :
        (o : Option Hand)
        → t.hand ≡ o
        → Ensures Sound (elim o [
          | none ↦ ok t
          | some h ↦
              let moved = play_logged d (advance h) t in
              if is_deal_pending h.phase then moved else ok t
        ])
    by_hand none e = v
    by_hand (some h) e =
        let (inv, turn) = hand_of t h v e in
        if_both (Ensures Sound) (is_deal_pending h.phase)
          (λ _.
            play_logged-Sound d (total_chips h) (advance h) t v (advance-Good h inv)
              (advance-Leads h))
          (λ _. v)

reveal_step-Sound : (d : Deps) (t : Table) → Sound t → Ensures Sound (reveal_step d t)
unfolding reveal_step
reveal_step-Sound d t v = by_hand t.hand refl
  where
    by_hand :
        (o : Option Hand)
        → t.hand ≡ o
        → Ensures Sound (elim o [
          | none ↦ ok t
          | some h ↦
              let moved = play_logged d (reveal_next h) t in
              if is_showing h.phase then moved else ok t
        ])
    by_hand none e = v
    by_hand (some h) e =
        let (inv, turn) = hand_of t h v e in
        if_both (Ensures Sound) (is_showing h.phase)
          (λ _.
            play_logged-Sound d (total_chips h) (reveal_next h) t v (reveal_next-Good h inv)
              (reveal_next-Leads h))
          (λ _. v)

-- The hand after the vote.
pub resolve_run_twice-Sound :
    (d : Deps) (t : Table) → Sound t → Ensures Sound (resolve_run_twice d t)
unfolding resolve_run_twice
resolve_run_twice-Sound d t v = by_hand t.hand refl
  where
    close : Hand → Table
    close k =
        schedule d.delays.runout advance_due
          (record t { hand = some k; rit_votes = none; rit_ends_at = 0; rit_decided = true })

    by_run :
        (h : Hand) (m : Outcome Types.Error Hand)
        → Sound (close h)
        → Ensures (λ k. Inv k × (total_chips k ≡ total_chips h)) m
        → Whenever TurnOk m
        → Ensures {E = TableError} Sound
            (elim m [ ok k ↦ ok (close k) | refused e ↦ ok (close h) | panic ↦ panic ])
    by_run h (ok k) w g l = (v.0, (g.0, l))
    by_run h (refused e) w g l = w
    by_run h panic w g l = absurd g

    by_hand :
        (o : Option Hand)
        → t.hand ≡ o
        → Ensures {E = TableError} Sound (elim o [
          | none ↦ ok t
          | some h ↦ elim t.rit_votes [
            | none ↦ ok t
            | some votes ↦
                if vote_complete h votes t
                then elim (run_it_twice h) [
                  | ok k ↦ ok (close k)
                  | refused e ↦ ok (close h)
                  | panic ↦ panic
                ]
                else ok (close h)
          ]
        ])
    by_hand none e = v
    by_hand (some h) e =
        let (inv, turn) = hand_of t h v e in
        let same : Sound (close h) = (v.0, (inv, turn)) in by_votes h inv turn same t.rit_votes
      where
        by_votes :
            (h : Hand)
            → Inv h
            → TurnOk h
            → Sound (close h)
            → (o : Option (List (ℕ × Bool)))
            → Ensures {E = TableError} Sound (elim o [
              | none ↦ ok t
              | some votes ↦
                  if vote_complete h votes t
                  then elim (run_it_twice h) [
                    | ok k ↦ ok (close k)
                    | refused e ↦ ok (close h)
                    | panic ↦ panic
                  ]
                  else ok (close h)
            ])
        by_votes h inv turn same none = v
        by_votes h inv turn same (some votes) =
            if_both (Ensures Sound) (vote_complete h votes t)
              (λ _.
                by_run h (run_it_twice h) same (run_it_twice-Good h inv)
                  (run_it_twice-TurnOk h turn))
              (λ _. same)

after_bank-Sound : (p : Option TablePlayer) (t : Table) → Sound t → Sound (after_bank p t)
after_bank-Sound none t v = v
after_bank-Sound (some p) t v =
    let spent : Table = spend_bank p t in
    let calm : Sound spent =
      if_both Sound t.time_bank_using
        (λ _.
          change-Sound (λ q. record q { time_bank = 0 }) p.id (record t { time_bank_using = false })
            ((λ q. refl), (λ q. refl)) v)
        (λ _. v) in
    let missed : Sound
        (change_player (λ q. record q { missed_turns = q.missed_turns + 1 }) p.id spent) =
      change-Sound (λ q. record q { missed_turns = q.missed_turns + 1 }) p.id spent
        ((λ q. refl), (λ q. refl)) calm in
    if_both Sound (leb (pos_part spent.settings.sit_out_after_missed_turns) (p.missed_turns + 1))
      (λ _. missed) (λ _. missed)

on_turn_timeout-Sound :
    (d : Deps) (seat : ℕ) (t : Table) → Sound t → Ensures Sound (on_turn_timeout d seat t)
unfolding on_turn_timeout
on_turn_timeout-Sound d seat t v = by_hand t.hand refl
  where
    banked : (p : Option TablePlayer) → Sound (bank_turn d seat p t)
    banked none = v
    banked (some p) =
        change-Sound (λ q. record q { used_time_bank = true }) p.id
          (record t { time_bank_using = true; deadline = d.now + p.time_bank * 1000 })
          ((λ q. refl), (λ q. refl)) v

    by_hand :
        (o : Option Hand)
        → t.hand ≡ o
        → Ensures Sound (elim o [
          | none ↦ ok t
          | some h ↦
              let p = player_at t seat in
              let banked = bank_turn d seat p t in
              let timed = play d (timeout h seat) (after_bank p t) in
              if not (is_betting h.phase) || not (is_turn_of h seat)
              then ok t
              else if bank_starts t p
              then ok banked
              else timed
        ])
    by_hand none e = v
    by_hand (some h) e =
        let (inv, turn) = hand_of t h v e in
        if_both (Ensures Sound) (not (is_betting h.phase) || not (is_turn_of h seat)) (λ _. v)
          (λ _.
            if_both (Ensures Sound) (bank_starts t (player_at t seat))
              (λ _. banked (player_at t seat))
              (λ _.
                play-Sound d (total_chips h) (timeout h seat) (after_bank (player_at t seat) t)
                  (after_bank-Sound (player_at t seat) t v)
                  (Ensures-of_Returns (Good (total_chips h)) (timeout h seat)
                    (timeout-Good h seat inv))
                  (timeout-Leads h seat turn)))

cleared-Sound : (t : Table) → Sound t → Sound (cleared t)
cleared-Sound t v =
    let out : TablePlayer → TablePlayer = λ q. record q { in_hand = false } in
    let stood : Table = each_seat (λ p u. change_player out p.id u) all_seats t in
    let same : core stood ≡ core t =
      core-each_seat (λ p u. change_player out p.id u)
        (λ p u. core-change out p.id u ((λ q. refl), (λ q. refl))) all_seats t in
    no_hand-Sound stood (cleared t) refl (Sound-same t stood same v)

clear_hand-Sound : (d : Deps) (t : Table) → Picks d → Sound t → Ensures Sound (clear_hand d t)
unfolding clear_hand
clear_hand-Sound d t picks v =
    let calm : Sound (cleared t) = cleared-Sound t v in
    if_both (Ensures Sound) t.end_after_hand
      (λ _. end_table-Sound d (record (cleared t) { end_after_hand = false }) calm)
      (λ _.
        maybe_start_hand-Sound d (apply_pending_seat_changes (cleared t)) picks
          (apply_pending_seat_changes-Sound (cleared t) calm))

-- Whatever the timer was armed for.
pub fire-Sound : (d : Deps) (t : Table) → Picks d → Sound t → Ensures Sound (fire d t)
unfolding fire ring
fire-Sound d t picks v = by_alarm t.timer
  where
    rung : (a : Alarm) → Ensures Sound (ring d a (record t { timer = none }))
    rung start_due =
        maybe_start_hand-Sound d
          (record t { timer = none; start_pending = false; next_hand_at = 0 }) picks v
    rung advance_due = advance_hand-Sound d (record t { timer = none }) v
    rung reveal_due = reveal_step-Sound d (record t { timer = none }) v
    rung vote_over = resolve_run_twice-Sound d (record t { timer = none }) v
    rung (result_due hand_delay) = v
    rung clear_due = clear_hand-Sound d (record t { timer = none }) picks v
    rung (turn_over seat) = on_turn_timeout-Sound d seat (record t { timer = none }) v

    by_alarm :
        (o : Option (ℕ × Alarm))
        → Ensures Sound
            (elim o [ none ↦ ok t | some (delay, a) ↦ ring d a (record t { timer = none }) ])
    by_alarm none = v
    by_alarm (some (delay, a)) = rung a

-- A player's answer in the vote.
pub run_twice-Sound :
    (d : Deps) (t : Table) (id : ℕ) (agree : Bool)
    → Sound t
    → Ensures Sound (run_twice d t id agree)
unfolding run_twice
run_twice-Sound d t id agree v = seated_player-Ensures t id _ (λ p at. by_hand p t.hand)
  where
    voted : TablePlayer → List (ℕ × Bool) → Table
    voted p votes = record t { rit_votes = some ((p.seat, agree) ∷ votes) }

    by_votes :
        (p : TablePlayer) (h : Hand) (o : Option (List (ℕ × Bool)))
        → Ensures Sound (elim o [
          | none ↦ refused (from_engine wrong_phase)
          | some votes ↦
              let resolved = resolve_run_twice d (voted p votes) in
              guard (not p.in_hand || has_folded h p.seat) (from_engine wrong_phase) (
                guard (any (λ v. v.0 == p.seat) votes) illegal_action (
                  if not agree || vote_complete h ((p.seat, agree) ∷ votes) t
                  then resolved
                  else ok (voted p votes)))
        ])
    by_votes p h none = tt
    by_votes p h (some votes) =
        guard-Sound (not p.in_hand || has_folded h p.seat) (from_engine wrong_phase) _ (
          guard-Sound (any (λ v. v.0 == p.seat) votes) illegal_action _ (
            if_both (Ensures Sound) (not agree || vote_complete h ((p.seat, agree) ∷ votes) t)
              (λ _. resolve_run_twice-Sound d (voted p votes) v) (λ _. v)))

    by_hand :
        (p : TablePlayer) (o : Option Hand)
        → Ensures Sound (elim o [
          | none ↦ refused (from_engine wrong_phase)
          | some h ↦ elim t.rit_votes [
            | none ↦ refused (from_engine wrong_phase)
            | some votes ↦
                let resolved = resolve_run_twice d (voted p votes) in
                guard (not p.in_hand || has_folded h p.seat) (from_engine wrong_phase) (
                  guard (any (λ v. v.0 == p.seat) votes) illegal_action (
                    if not agree || vote_complete h ((p.seat, agree) ∷ votes) t
                    then resolved
                    else ok (voted p votes)))
          ]
        ])
    by_hand p none = tt
    by_hand p (some h) = by_votes p h t.rit_votes

pub show_hole_cards-Sound :
    (d : Deps) (t : Table) (id : ℕ) (which : Text)
    → Sound t
    → Ensures Sound (show_hole_cards d t id which)
unfolding show_hole_cards
show_hole_cards-Sound d t id which v = seated_player-Ensures t id _ (λ p at. by_hand p t.hand refl)
  where
    shown :
        (h : Hand) (m : Outcome Types.Error Run)
        → Ensures (Good (total_chips h)) m
        → Whenever Leads m
        → Ensures Sound (engine m >>= λ r. ok (extend_result_phase d (take_run r t)))
    shown h (ok r) g l =
        Sound-same (take_run r t) (extend_result_phase d (take_run r t))
          (core-extend_result_phase d (take_run r t)) (take_run-Sound r t v g.0 l)
    shown h (refused e) g l = tt
    shown h panic g l = absurd g

    by_words :
        (p : TablePlayer) (h : Hand)
        → Inv h
        → (o : Option (Bool × Bool))
        → Ensures Sound (elim o [
          | none ↦ refused illegal_action
          | some (first, second) ↦ engine (show_cards h p.seat first second) >>= λ r.
              ok (extend_result_phase d (take_run r t))
        ])
    by_words p h inv none = tt
    by_words p h inv (some (first, second)) =
        shown h (show_cards h p.seat first second) (show_cards-Good h p.seat first second inv)
          (show_cards-Leads h p.seat first second)

    by_hand :
        (p : TablePlayer) (o : Option Hand)
        → t.hand ≡ o
        → Ensures Sound (elim o [
          | none ↦ refused (from_engine wrong_phase)
          | some h ↦
              guard
                (not (is_done t && p.in_hand))
                (from_engine wrong_phase)
                (elim (which_cards which) [
                  | none ↦ refused illegal_action
                  | some (first, second) ↦ engine (show_cards h p.seat first second) >>= λ r.
                      ok (extend_result_phase d (take_run r t))
                ])
        ])
    by_hand p none e = tt
    by_hand p (some h) e =
        guard-Sound (not (is_done t && p.in_hand)) (from_engine wrong_phase) _
          (by_words p h (hand_of t h v e).0 (which_cards which))

pub hunt_rabbit-Sound :
    (d : Deps) (t : Table) (id : ℕ) → Sound t → Ensures Sound (hunt_rabbit d t id)
unfolding hunt_rabbit
hunt_rabbit-Sound d t id v =
    seated_player-Ensures t id _ (λ p at.
      guard-Sound (not t.settings.allow_rabbit_hunt) rabbit_not_allowed _ (by_hand p t.hand))
  where
    hunted : TablePlayer → List Card → Table
    hunted p cards = emit (rabbit_hunt p.seat p.name cards) (record t { rabbit_cards = some cards })

    by_hand :
        (p : TablePlayer) (o : Option Hand)
        → Ensures Sound (elim o [
          | none ↦ refused (from_engine wrong_phase)
          | some h ↦
              let cards = remaining_board h in
              guard (not (is_done t && p.in_hand)) (from_engine wrong_phase) (
                guard (was_hunted t) illegal_action (
                  guard
                    (length cards == 0)
                    illegal_action
                    (ok (extend_result_phase d (hunted p cards)))))
        ])
    by_hand p none = tt
    by_hand p (some h) = guard-Sound (not (is_done t && p.in_hand)) (from_engine wrong_phase) _ (
        guard-Sound (was_hunted t) illegal_action _ (
          guard-Sound (length (remaining_board h) == 0) illegal_action _ (
            Sound-same t (extend_result_phase d (hunted p (remaining_board h)))
              (core-extend_result_phase d (hunted p (remaining_board h))) v)))
