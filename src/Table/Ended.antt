-- ===== src/Table/Ended.antt =====
-- table.go: an ended table only lets its players leave and the host restart it.
use showdown.Base.{ℕ, ◌≡◌, refl, Bool, true, false}
use showdown.Base.Outcome.{Outcome, refused, ◌>>=◌}
use showdown.Table.Types.{
  Table, TablePlayer, TableError, Deps, ended, table_ended, invalid_state, pre_none, other,
  pre_check_fold, pre_call_any,
}
use showdown.Table.Seats.{seated_player}
use showdown.Table.Players.{join, action, change_seat}
use showdown.Table.Requests.{
  set_pre_action, sit_out, sit_in, rebuy, run_twice, show_hole_cards, hunt_rabbit,
}
use showdown.Table.Host.{
  blinds_up, update_settings, start, pause, resume, end, kick, adjust_chips, mute, set_voice,
  set_avatar, set_straddle, camera_off, mute_voice,
}
use showdown.Table.Sound.Reached.{
  Request, serve, joins, acts, moves, arms, sits_out, sits_in, rebuys, leaves, hunts, votes, shows,
  settles, raises_blinds, starts, pauses, resumes, restarts, rings, ends, kicks, turns_camera_off,
  mutes_voice, adjusts, mutes, speaks, dresses, straddles,
}

-- What an ended table still answers.
abbrev pub is_open : Request → Bool
is_open (leaves id) = true
is_open restarts = true
is_open rings = true
is_open _ = false

-- The commands that look for a state of the table instead.
abbrev pub closed_error : Request → TableError
closed_error starts = invalid_state
closed_error pauses = invalid_state
closed_error resumes = invalid_state
closed_error (ends immediate) = invalid_state
closed_error _ = table_ended

seated-closed :
    (t : Table) (id : ℕ) (f : TablePlayer → Outcome TableError Table)
    → t.state ≡ ended
    → (seated_player t id >>= f) ≡ refused table_ended
seated-closed t id f h = rw h refl

-- An ended table refuses every request of the model that is a command, but leaving and the restart: the
-- start, the pause, the resumption and the end with `ErrInvalidState`, all others with `ErrTableEnded`.
pub serve-closed :
    (d : Deps) (t : Table) (q : Request)
    → t.state ≡ ended
    → is_open q ≡ false
    → serve d t q ≡ refused (closed_error q)
unfolding serve join action change_seat set_pre_action sit_out sit_in rebuy run_twice
    show_hole_cards hunt_rabbit blinds_up update_settings start pause resume end kick adjust_chips
    mute set_voice set_avatar set_straddle camera_off mute_voice
serve-closed d t (joins n wanted) h o = rw h refl
serve-closed d t (acts id a) h o = seated-closed t id _ h
serve-closed d t (moves id seat) h o = seated-closed t id _ h
serve-closed d t (arms id pre_none) h o = seated-closed t id _ h
serve-closed d t (arms id other) h o = seated-closed t id _ h
serve-closed d t (arms id pre_check_fold) h o = seated-closed t id _ h
serve-closed d t (arms id pre_call_any) h o = seated-closed t id _ h
serve-closed d t (sits_out id) h o = seated-closed t id _ h
serve-closed d t (sits_in id) h o = seated-closed t id _ h
serve-closed d t (rebuys id) h o = seated-closed t id _ h
serve-closed d t (leaves id) h o = cc
serve-closed d t (hunts id) h o = seated-closed t id _ h
serve-closed d t (votes id agree) h o = seated-closed t id _ h
serve-closed d t (shows id which) h o = seated-closed t id _ h
serve-closed d t (settles p hash) h o = rw h refl
serve-closed d t raises_blinds h o = rw h refl
serve-closed d t starts h o = rw h refl
serve-closed d t pauses h o = rw h refl
serve-closed d t resumes h o = rw h refl
serve-closed d t restarts h o = cc
serve-closed d t rings h o = cc
serve-closed d t (ends immediate) h o = rw h refl
serve-closed d t (kicks id) h o = seated-closed t id _ h
serve-closed d t (turns_camera_off id) h o = seated-closed t id _ h
serve-closed d t (mutes_voice id) h o = seated-closed t id _ h
serve-closed d t (adjusts id delta) h o = seated-closed t id _ h
serve-closed d t (mutes id b) h o = seated-closed t id _ h
serve-closed d t (speaks id w camera) h o = seated-closed t id _ h
serve-closed d t (dresses id avatar) h o = seated-closed t id _ h
serve-closed d t (straddles id b) h o = seated-closed t id _ h
