-- ===== src/Table/Requests.antt =====
-- table.go: what a player at the table asks for, from `SetPreAction` to `RabbitHunt`.
use showdown.Base.{
  ℕ, ◌+◌, Bool, true, false, not, ◌&&◌, ◌||◌, ◌∷◌, Option, none, some, ◌==◌, if◌then◌else◌, length,
  any,
}
use showdown.Base.Int.{pos_part}
use showdown.Base.Outcome.{Outcome, ok, refused, ◌>>=◌}
use showdown.Base.Text.{Text, eq_text, is_empty_text, text}
use showdown.Poker.Types.{wrong_phase}
use showdown.Poker.Hand.State.{Hand}
use showdown.Poker.Hand.Calls.{forfeit, show_cards}
use showdown.Poker.Hand.Views.{state, remaining_board}
use showdown.Table.Types.{
  TablePlayer, Table, Status, active, sitting_out, busted, PreAction, unarmed, sit_out_fold,
  check_fold, call_any, PreActionKind, pre_none, pre_check_fold, pre_call_any, other, TableError,
  Deps, not_seated, not_between_hands, rebuy_not_allowed, invalid_state, illegal_action,
  rabbit_not_allowed, from_engine, player_sat_out, player_sat_in, player_rebought, rabbit_hunt,
}
use showdown.Table.Seats.{
  by_id, change_player, seated_player, is_active, is_done, between_hands, hand_in_progress, emit,
  persist_player,
}
use showdown.Table.Clock.{schedule_start}
use showdown.Table.Finish.{free_seat, extend_result_phase}
use showdown.Table.Engine.{
  engine, play, take_run, after_engine, apply_pre_action, resolve_run_twice, vote_complete,
  has_folded,
}
use showdown.Table.Play.{is_turn_of}
use showdown.Table.Players.{guard}

abbrev pub is_sit_out_fold : PreAction → Bool
is_sit_out_fold sit_out_fold = true
is_sit_out_fold _ = false

abbrev pub armed_with : PreActionKind → Option PreAction
armed_with pre_check_fold = some check_fold
armed_with pre_call_any = some call_any
armed_with _ = none

unfoldable pub arm : Deps → TablePlayer → PreAction → Table → Outcome TableError Table
unfolding apply_pre_action after_engine
arm d p k t =
    let armed = change_player (λ q. record q { pre_action = k }) p.id t in
    elim t.hand [
      | none ↦ ok armed
      | some h ↦
          let acted = apply_pre_action h (record p { pre_action = k }) armed >>= after_engine d in
          if hand_in_progress t && (p.in_hand && is_turn_of h p.seat) then acted else ok armed
    ]

-- `t.SetPreAction`
unfoldable pub set_pre_action : Deps → Table → ℕ → PreActionKind → Outcome TableError Table
set_pre_action d t id pre_none = seated_player t id >>= λ p. ok (
    if is_sit_out_fold p.pre_action
    then t
    else change_player (λ q. record q { pre_action = unarmed }) p.id t)
set_pre_action d t id other = seated_player t id >>= λ p. refused illegal_action
set_pre_action d t id pre_check_fold = seated_player t id >>= λ p.
    guard (is_sit_out_fold p.pre_action) (from_engine wrong_phase) (arm d p check_fold t)
set_pre_action d t id pre_call_any = seated_player t id >>= λ p.
    guard (is_sit_out_fold p.pre_action) (from_engine wrong_phase) (arm d p call_any t)

abbrev pub can_still_fold : Hand → ℕ → Bool
can_still_fold h seat = elim (state h seat) [ none ↦ false | some s ↦ not s.folded && not s.all_in ]

-- `t.SitOut`
unfoldable pub sit_out : Deps → Table → ℕ → Outcome TableError Table
sit_out d t id = seated_player t id >>= λ p.
    let idle = persist_player p.id (
      emit (player_sat_out p.seat p.name)
        (change_player (λ q. record q { status = sitting_out }) p.id t)) in
    guard (not (is_active p.status)) invalid_state (elim t.hand [
      | none ↦ ok idle
      | some h ↦
          let folded = play d (forfeit h p.seat) idle in
          if hand_in_progress t && (p.in_hand && can_still_fold h p.seat) then folded else ok idle
    ])

abbrev pub is_sitting_out : Status → Bool
is_sitting_out sitting_out = true
is_sitting_out _ = false

abbrev pub is_busted : Status → Bool
is_busted busted = true
is_busted _ = false

-- `t.SitIn`
unfoldable pub sit_in : Deps → Table → ℕ → Outcome TableError Table
unfolding schedule_start
sit_in d t id = seated_player t id >>= λ p. guard (not (is_sitting_out p.status)) invalid_state (
    ok (
      schedule_start d (
        persist_player p.id (
          emit (player_sat_in p.seat p.name) (
            change_player
              (λ q. record q {
                status = (if q.stack == 0 then busted else active);
                missed_turns = 0;
              })
              p.id t)))))

-- `t.Rebuy`
unfoldable pub rebuy : Deps → Table → ℕ → Outcome TableError Table
unfolding schedule_start
rebuy d t id = seated_player t id >>= λ p.
    let money = pos_part t.settings.start_money in
    guard (not t.settings.allow_rebuy) rebuy_not_allowed (
      guard (not (is_busted p.status)) rebuy_not_allowed (
        guard (not (between_hands t)) not_between_hands (
          ok (
            schedule_start d (
              persist_player p.id (
                emit (player_rebought p.seat p.name t.settings.start_money) (
                  change_player
                    (λ q. record q {
                      stack = money;
                      buy_in_total = q.buy_in_total + money;
                      status = active;
                    })
                    p.id t)))))))

-- The seat of a leaver is freed, unless the hand ended with it being freed.
unfoldable pub free_if_there : ℕ → Table → Table
unfolding free_seat
free_if_there id t = elim (by_id t.players id) [ none ↦ t | some p ↦ free_seat p t ]

-- `t.removePlayer`
unfoldable pub remove_player : Deps → Bool → TablePlayer → Table → Outcome TableError Table
remove_player d kicked p t =
    let going =
      change_player (λ q. record q { leaving = true; kicked = q.kicked || kicked }) p.id t in
    elim t.hand [
      | none ↦ ok (free_if_there p.id going)
      | some h ↦
          let folded = play d (forfeit h p.seat) going >>= λ u.
          ok (if hand_in_progress u then u else free_if_there p.id u) in
          if hand_in_progress t && p.in_hand then folded else ok (free_if_there p.id going)
    ]

-- `t.Leave`, which an ended table allows too.
unfoldable pub leave : Deps → Table → ℕ → Outcome TableError Table
unfolding remove_player
leave d t id = elim (by_id t.players id) [
  | none ↦ refused not_seated
  | some p ↦ remove_player d false p t
]

-- `t.RunTwice`
unfoldable pub run_twice : Deps → Table → ℕ → Bool → Outcome TableError Table
unfolding resolve_run_twice
run_twice d t id agree = seated_player t id >>= λ p. elim t.hand [
  | none ↦ refused (from_engine wrong_phase)
  | some h ↦ elim t.rit_votes [
    | none ↦ refused (from_engine wrong_phase)
    | some votes ↦
        let voted = record t { rit_votes = some ((p.seat, agree) ∷ votes) } in
        let resolved = resolve_run_twice d voted in
        guard (not p.in_hand || has_folded h p.seat) (from_engine wrong_phase) (
          guard (any (λ v. v.0 == p.seat) votes) illegal_action (
            if not agree || vote_complete h ((p.seat, agree) ∷ votes) t
            then resolved
            else ok voted))
  ]
]

-- The words of `ShowCards` for the cards that are shown.
abbrev pub which_cards : Text → Option (Bool × Bool)
which_cards w =
    if is_empty_text w || eq_text w (text "both")
    then some (true, true)
    else if eq_text w (text "first")
    then some (true, false)
    else if eq_text w (text "second")
    then some (false, true)
    else none

-- `t.ShowCards`
unfoldable pub show_hole_cards : Deps → Table → ℕ → Text → Outcome TableError Table
unfolding extend_result_phase
show_hole_cards d t id which = seated_player t id >>= λ p. elim t.hand [
  | none ↦ refused (from_engine wrong_phase)
  | some h ↦
      guard (not (is_done t && p.in_hand)) (from_engine wrong_phase) (elim (which_cards which) [
        | none ↦ refused illegal_action
        | some (first, second) ↦ engine (show_cards h p.seat first second) >>= λ r.
            ok (extend_result_phase d (take_run r t))
      ])
]

abbrev pub was_hunted : Table → Bool
was_hunted t = elim t.rabbit_cards [ none ↦ false | some cards ↦ true ]

-- `t.RabbitHunt`
unfoldable pub hunt_rabbit : Deps → Table → ℕ → Outcome TableError Table
unfolding extend_result_phase
hunt_rabbit d t id = seated_player t id >>= λ p.
    guard (not t.settings.allow_rabbit_hunt) rabbit_not_allowed (elim t.hand [
      | none ↦ refused (from_engine wrong_phase)
      | some h ↦
          let cards = remaining_board h in
          guard (not (is_done t && p.in_hand)) (from_engine wrong_phase) (
            guard (was_hunted t) illegal_action (
              guard (length cards == 0) illegal_action (
                ok (
                  extend_result_phase d (
                    emit (rabbit_hunt p.seat p.name cards)
                      (record t { rabbit_cards = some cards }))))))
    ])
