-- ===== src/Table/Sound/Hosting.antt =====
-- table.go: the commands of the host, and those that change how a player looks or pays, keep a table
-- sound.
use showdown.Base.{
  ℕ, ◌+◌, ◌≤◌, ◌≡◌, refl, inl, inr, Bool, true, false, not, ◌&&◌, List, [], ◌∷◌, none, ◌==◌, ltb,
  leb, if◌then◌else◌, if_both, any, Option-cases,
}
use showdown.Base.Int.{ℤ, pos, pos_part, ltb_ℤ, is_zero_ℤ}
use showdown.Base.Text.{Text}
use showdown.Base.Outcome.{Outcome, ok, refused, panic, Ensures, Ensures-map}
use showdown.Table.Settings.{Settings}
use showdown.Table.Settings.Fields.{Field, tournament_keeps}
use showdown.Table.Settings.Patch.{SettingsPatch, Applied, apply_patch}
use showdown.Table.Settings.Valid.{IsValid}
use showdown.Table.Settings.Laws.{Answers, apply_patch-Answers}
use showdown.Table.Types.{
  Table, Deps, Voice, muted, active, busted, running, table_started, table_resumed, table_ended,
  invalid_state, rebuy_not_allowed, not_between_hands, locked_by_tournament, illegal_action,
  from_settings, audited, saved_settings,
}
use showdown.Table.Seats.{
  by_id, change_player, seated_count, is_ended, between_hands, hand_in_progress, max_seats, note,
  persist_player,
}
use showdown.Table.Clock.{
  is_waiting, is_running, set_state, schedule_start, raise_blinds, arm_blinds_clock, apply_chips,
  raised, tournament_locked,
}
use showdown.Table.Finish.{each_seat, all_seats, void_hand}
use showdown.Table.Players.{guard, avatar_count}
use showdown.Table.Requests.{sit_in, is_sitting_out, is_busted, rebuy, leave}
use showdown.Table.Host.{
  blinds_up, announce_changed, take_settings, is_blinds_up_minutes, update_settings, start, pause,
  resume_clock, is_paused, resume, end, fresh, at_start_level, restart, kick, adjust_chips, mute,
  set_voice, is_unset, is_off, set_avatar, set_straddle, camera_off, mute_voice, is_on,
}
use showdown.Table.Sound.{
  Sound, core, Sound-same, change-Sound, core-change, core-each_seat, core-schedule_start,
  apply_chips-core,
}
use showdown.Table.Sound.Finishing.{core-if, end_table-Sound, void_hand-Sound}
use showdown.Table.Sound.Dealing.{Picks, maybe_start_hand-Sound}
use showdown.Table.Sound.Commands.{guard-Sound, seated_player-Ensures, remove_player-Sound}

start-Sound : (d : Deps) (u : Table) → Sound u → Sound (schedule_start d u)
start-Sound d u v = Sound-same u (schedule_start d u) (core-schedule_start d u) v

pub sit_in-Sound : (d : Deps) (t : Table) (id : ℕ) → Sound t → Ensures Sound (sit_in d t id)
unfolding sit_in
sit_in-Sound d t id v = seated_player-Ensures t id _ (λ p at.
    guard-Sound (not (is_sitting_out p.status)) invalid_state _ (
      start-Sound d _ (
        change-Sound
          (λ q. record q { status = (if q.stack == 0 then busted else active); missed_turns = 0 })
          p.id t ((λ q. refl), (λ q. refl)) v)))

pub rebuy-Sound : (d : Deps) (t : Table) (id : ℕ) → Sound t → Ensures Sound (rebuy d t id)
unfolding rebuy
rebuy-Sound d t id v = seated_player-Ensures t id _ (λ p at.
    guard-Sound (not t.settings.allow_rebuy) rebuy_not_allowed _ (
      guard-Sound (not (is_busted p.status)) rebuy_not_allowed _ (
        guard-Sound (not (between_hands t)) not_between_hands _ (
          start-Sound d _ (
            change-Sound
              (λ q. record q {
                stack = pos_part t.settings.start_money;
                buy_in_total = q.buy_in_total + pos_part t.settings.start_money;
                status = active;
              })
              p.id t ((λ q. refl), (λ q. refl)) v)))))

pub leave-Sound : (d : Deps) (t : Table) (id : ℕ) → Sound t → Ensures Sound (leave d t id)
unfolding leave
leave-Sound d t id v = elim (Option-cases (by_id t.players id)) [
  | inl e ↦ rw (e, Ensures, leave) tt
  | inr (p, e) ↦ rw (e, Ensures, leave) (remove_player-Sound d false p t v)
]

pub kick-Sound : (d : Deps) (t : Table) (id : ℕ) → Sound t → Ensures Sound (kick d t id)
unfolding kick
kick-Sound d t id v =
    seated_player-Ensures t id _ (λ p at. remove_player-Sound d true p (note audited t) v)

core-arm_blinds_clock : (d : Deps) (t : Table) → core (arm_blinds_clock d t) ≡ core t
unfolding arm_blinds_clock
core-arm_blinds_clock d t = refl

pub blinds_up-Sound : (d : Deps) (t : Table) → Sound t → Ensures Sound (blinds_up d t)
unfolding blinds_up raise_blinds arm_blinds_clock raised
blinds_up-Sound d t v = guard-Sound (is_ended t.state) table_ended _ v

limit-le : (s : Settings) (seated : ℕ) → IsValid s seated → pos_part s.max_players ≤ max_seats
limit-le s seated v = let (n, e, low, high) = v.max_players in rw e high

pub update_settings-Sound :
    (d : Deps) (t : Table) (p : SettingsPatch) (hash : Text)
    → Sound t
    → Ensures Sound (update_settings d t p hash)
unfolding update_settings take_settings arm_blinds_clock
update_settings-Sound d t p hash v = guard-Sound (is_ended t.state) table_ended _ (
    by_answer (apply_patch t.settings p hash (seated_count t))
      (apply_patch-Answers t.settings p hash (seated_count t)))
  where
    announced : (fs : List Field) (u : Table) → core (announce_changed fs u) ≡ core u
    announced [] u = refl
    announced (f ∷ fs) u = refl

    accepted :
        (a : Applied)
        → IsValid a.settings (seated_count t)
        → Sound (
            note audited (
              if any is_blinds_up_minutes a.changed && is_running t.state
              then arm_blinds_clock d (
                  note saved_settings
                    (announce_changed a.changed (record t { settings = a.settings })))
              else note saved_settings
                  (announce_changed a.changed (record t { settings = a.settings }))))
    accepted a valid =
        let taken : Table = record t { settings = a.settings } in
        let told : Table = note saved_settings (announce_changed a.changed taken) in
        let sound : Sound taken = ((v.0.0, limit-le a.settings (seated_count t) valid), v.1) in
        let calm : Sound told = Sound-same taken told (announced a.changed taken) sound in
        if_both (λ (u : Table). Sound (note audited u))
          (any is_blinds_up_minutes a.changed && is_running t.state) (λ _. calm) (λ _. calm)

    by_answer :
        (m : Outcome (List Field) Applied)
        → Answers t.settings p hash (seated_count t) m
        → Ensures Sound (elim m [
          | ok a ↦
              guard
                (tournament_locked t && any tournament_keeps a.changed)
                locked_by_tournament
                (ok (take_settings d a t))
          | refused fs ↦ refused (from_settings fs)
          | panic ↦ panic
        ])
    by_answer (ok a) (_, valid, _, _) =
        guard-Sound (tournament_locked t && any tournament_keeps a.changed) locked_by_tournament _
          (start-Sound d _ (accepted a valid))
    by_answer (refused fs) bad = tt
    by_answer panic bad = absurd bad

pub start_table-Sound : (d : Deps) (t : Table) → Picks d → Sound t → Ensures Sound (start d t)
unfolding start arm_blinds_clock
start_table-Sound d t picks v =
    let on : Table = note audited (arm_blinds_clock d (set_state running table_started t)) in
    guard-Sound (not (is_waiting t.state)) invalid_state _ (maybe_start_hand-Sound d on picks v)

pub pause-Sound : (d : Deps) (t : Table) → Sound t → Ensures Sound (pause d t)
unfolding pause
pause-Sound d t v =
    guard-Sound (not (is_running t.state)) invalid_state _
      (if_both (λ (u : Table). Sound (note audited u)) (ltb 0 t.blinds_up_at) (λ _. v) (λ _. v))

core-resume_clock : (d : Deps) (t : Table) → core (resume_clock d t) ≡ core t
unfolding resume_clock arm_blinds_clock
core-resume_clock d t =
    core-if t (ltb 0 t.blinds_paused_ms && ltb_ℤ (pos 0) t.settings.blinds_up_minutes)
      (record t { blinds_up_at = d.now + t.blinds_paused_ms; blinds_paused_ms = 0 })
      (record (arm_blinds_clock d t) { blinds_paused_ms = 0 }) refl refl

pub resume-Sound : (d : Deps) (t : Table) → Picks d → Sound t → Ensures Sound (resume d t)
unfolding resume
resume-Sound d t picks v =
    let on : Table = set_state running table_resumed t in
    guard-Sound (not (is_paused t.state)) invalid_state _ (
      maybe_start_hand-Sound d (note audited (resume_clock d on)) picks
        (Sound-same t (note audited (resume_clock d on)) (core-resume_clock d on) v))

pub end-Sound :
    (d : Deps) (t : Table) (immediate : Bool) → Sound t → Ensures Sound (end d t immediate)
unfolding end
end-Sound d t immediate v = guard-Sound (is_ended t.state) invalid_state _ (
    if_both Sound (hand_in_progress t)
      (λ _.
        if_both Sound immediate
          (λ _. end_table-Sound d (void_hand (note audited t)) (void_hand-Sound (note audited t) v))
          (λ _. v))
      (λ _. end_table-Sound d (note audited t) v))

pub restart-Sound : (t : Table) → Sound t → Ensures Sound (restart t)
unfolding restart fresh at_start_level
restart-Sound t v =
    let s : Settings = at_start_level t.settings in
    let reset : Table = note saved_settings (record (note audited t) {
      round_start_hand = t.hand_number;
      ended_at = 0;
      end_after_hand = false;
      button_seat = none;
      rabbit_cards = none;
      pending_chips = [];
      sit_out_pending = [];
      settings = s;
      blinds_up_at = 0;
      blinds_paused_ms = 0;
    }) in
    guard-Sound (not (is_ended t.state)) invalid_state _ (
      Sound-same t
        (each_seat (λ p u. persist_player p.id (change_player (fresh s) p.id u)) all_seats reset)
        (core-each_seat (λ p u. persist_player p.id (change_player (fresh s) p.id u))
          (λ p u. core-change (fresh s) p.id u ((λ q. refl), (λ q. refl))) all_seats reset)
        v)

pub adjust_chips-Sound :
    (d : Deps) (t : Table) (id : ℕ) (delta : ℤ)
    → Sound t
    → Ensures Sound (adjust_chips d t id delta)
unfolding adjust_chips
adjust_chips-Sound d t id delta v = seated_player-Ensures t id _ (λ p at.
    guard-Sound (is_zero_ℤ delta) illegal_action _ (
      guard-Sound t.settings.tournament locked_by_tournament _ (
        if_both (Ensures Sound) (between_hands t)
          (λ _.
            Ensures-map (λ u. core u ≡ core t) Sound (apply_chips d p delta t)
              (λ u e. Sound-same t u e v) (apply_chips-core d p delta t))
          (λ _. v))))

-- The changes that only concern how a player looks, sounds or bets blind.
module _ (t : Table) (id : ℕ) (v : Sound t) where
  pub mute-Sound : (b : Bool) → Ensures Sound (mute t id b)
  unfolding mute
  mute-Sound b =
      seated_player-Ensures t id _
        (λ p at. change-Sound (λ q. record q { is_muted = b }) p.id t ((λ q. refl), (λ q. refl)) v)

  pub set_voice-Sound : (w : Voice) (camera : Bool) → Ensures Sound (set_voice t id w camera)
  unfolding set_voice
  set_voice-Sound w camera = seated_player-Ensures t id _ (λ p at.
      guard-Sound (is_unset w) illegal_action _ (
        change-Sound (λ q. record q { voice = w; camera = camera && not (is_off w) }) p.id t
          ((λ q. refl), (λ q. refl)) v))

  pub set_avatar-Sound : (a : ℕ) → Ensures Sound (set_avatar t id a)
  unfolding set_avatar
  set_avatar-Sound a = seated_player-Ensures t id _ (λ p at.
      guard-Sound (leb avatar_count a) illegal_action _ (
        if_both Sound (p.avatar == a) (λ _. v)
          (λ _. change-Sound (λ q. record q { avatar = a }) p.id t ((λ q. refl), (λ q. refl)) v)))

  pub set_straddle-Sound : (b : Bool) → Ensures Sound (set_straddle t id b)
  unfolding set_straddle
  set_straddle-Sound b = seated_player-Ensures t id _ (λ p at.
      guard-Sound (b && not t.settings.allow_straddle) illegal_action _
        (change-Sound (λ q. record q { straddle_next = b }) p.id t ((λ q. refl), (λ q. refl)) v))

  pub camera_off-Sound : Ensures Sound (camera_off t id)
  unfolding camera_off
  camera_off-Sound = seated_player-Ensures t id _ (λ p at.
      guard-Sound (not p.camera) illegal_action _
        (change-Sound (λ q. record q { camera = false }) p.id t ((λ q. refl), (λ q. refl)) v))

  pub mute_voice-Sound : Ensures Sound (mute_voice t id)
  unfolding mute_voice
  mute_voice-Sound = seated_player-Ensures t id _ (λ p at.
      guard-Sound (not (is_on p.voice)) illegal_action _
        (change-Sound (λ q. record q { voice = muted }) p.id t ((λ q. refl), (λ q. refl)) v))
