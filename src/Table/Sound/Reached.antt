-- ===== src/Table/Sound/Reached.antt =====
-- table.go and hand.go: any sequence of commands and timers, in any order.
use showdown.Base.{
  ℕ, zero, true, false, refl, suc, some, none, List, [], ◌∷◌, ◌≡◌, ◌≢◌, Bool, Option,
}
use showdown.Base.Int.{ℤ}
use showdown.Base.Text.{Text}
use showdown.Base.Outcome.{Outcome, ok, Ensures}
use showdown.Poker.Types.{Action}
use showdown.Table.Settings.Patch.{SettingsPatch}
use showdown.Table.Types.{Table, TableError, Deps, PreActionKind, Voice}
use showdown.Table.Players.{Newcomer, join, action, change_seat}
use showdown.Table.Requests.{
  set_pre_action, sit_out, sit_in, rebuy, leave, run_twice, show_hole_cards, hunt_rabbit,
}
use showdown.Table.Host.{
  blinds_up, update_settings, start, pause, resume, end, restart, kick, adjust_chips, mute,
  set_voice, set_avatar, set_straddle, camera_off, mute_voice,
}
use showdown.Table.Create.{empty_seats, new_table, when_valid, create}
use showdown.Table.Settings.{Settings}
use showdown.Table.Settings.Fields.{Field}
use showdown.Table.Settings.Validate.{validate}
use showdown.Table.Settings.Valid.{IsValid}
use showdown.Table.Settings.Checks.{validate-IsValid}
use showdown.Table.Seating.{Seating}
use showdown.Table.Seats.{id_at}
use showdown.Table.Play.{fire}
use showdown.Table.Sound.{Sound}
use showdown.Table.Sound.Dealing.{Picks}
use showdown.Table.Sound.Requests.{Fresh}

-- What the actor of a table is asked for: the commands of players and of the host, and its timer.
pub data Request : Type 0 where
  joins : Newcomer → Option ℕ → Request
  acts : ℕ → Action → Request
  moves : (id seat : ℕ) → Request
  arms : ℕ → PreActionKind → Request
  sits_out sits_in rebuys leaves hunts : ℕ → Request
  votes : ℕ → Bool → Request
  shows : ℕ → Text → Request
  settles : SettingsPatch → Text → Request
  raises_blinds starts pauses resumes restarts rings : Request
  ends : Bool → Request
  kicks turns_camera_off mutes_voice : ℕ → Request
  adjusts : ℕ → ℤ → Request
  mutes : ℕ → Bool → Request
  speaks : ℕ → Voice → Bool → Request
  dresses : (id avatar : ℕ) → Request
  straddles : ℕ → Bool → Request

unfoldable pub serve : Deps → Table → Request → Outcome TableError Table
serve d t (joins n wanted) = join d t n wanted
serve d t (acts id a) = action d t id a
serve d t (moves id seat) = change_seat t id seat
serve d t (arms id k) = set_pre_action d t id k
serve d t (sits_out id) = sit_out d t id
serve d t (sits_in id) = sit_in d t id
serve d t (rebuys id) = rebuy d t id
serve d t (leaves id) = leave d t id
serve d t (hunts id) = hunt_rabbit d t id
serve d t (votes id agree) = run_twice d t id agree
serve d t (shows id which) = show_hole_cards d t id which
serve d t (settles p hash) = update_settings d t p hash
serve d t raises_blinds = blinds_up d t
serve d t starts = start d t
serve d t pauses = pause d t
serve d t resumes = resume d t
serve d t restarts = restart t
serve d t rings = fire d t
serve d t (ends immediate) = end d t immediate
serve d t (kicks id) = kick d t id
serve d t (turns_camera_off id) = camera_off t id
serve d t (mutes_voice id) = mute_voice t id
serve d t (adjusts id delta) = adjust_chips d t id delta
serve d t (mutes id b) = mute t id b
serve d t (speaks id w camera) = set_voice t id w camera
serve d t (dresses id avatar) = set_avatar t id avatar
serve d t (straddles id b) = set_straddle t id b

-- Where a player joins, the id that is drawn is new; nothing else is asked of a request.
abbrev pub Allowed : Table → Request → Type 0
Allowed t (joins n wanted) = Fresh t n.id
Allowed t _ = Unit

-- A table that requests lead to, each at its own time; a refused request leaves the table as it is.
pub data Reached (t : Table) : Table → Type 0 where
  here : Reached t t
  then_asked :
      {u w : Table} (d : Deps) (q : Request)
      → Reached t u
      → Picks d
      → Allowed u q
      → serve d u q ≡ ok w
      → Reached t w

abbrev any_taken : List (Option ℕ) → Bool
any_taken [] = false
any_taken (none ∷ os) = any_taken os
any_taken (some id ∷ os) = true

empty_at : (os : List (Option ℕ)) → any_taken os ≡ false → (i id : ℕ) → id_at os i ≢ some id
empty_at [] h i id e = cc
empty_at (none ∷ os) h zero id e = cc
empty_at (none ∷ os) h (suc i) id e = empty_at os h i id e
empty_at (some j ∷ os) h i id e = cc

empty-Seating : Seating empty_seats []
empty-Seating = record {
  sized = refl;
  filled = λ i id e. absurd (empty_at empty_seats refl i id e);
  placed = λ id i e. cc;
  distinct = tt;
}

pub new_table-Sound : (s : Settings) → IsValid s 0 → Sound (new_table s)
new_table-Sound s v = let (n, e, low, high) = v.max_players in ((empty-Seating, rw e high), tt)

pub create-Sound : (s : Settings) → Ensures Sound (create s)
unfolding create
create-Sound s = by_fields (validate s 0) refl
  where
    by_fields : (fs : List Field) → validate s 0 ≡ fs → Ensures Sound (when_valid fs s)
    by_fields [] e = new_table-Sound s ((validate-IsValid s 0).0 e)
    by_fields (f ∷ fs) e = tt
