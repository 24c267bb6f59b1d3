-- ===== src/Table/Create.antt =====
-- registry.go and table.go: `Registry.Create` for one table, with `newTable`. The name of the table,
-- its id, and the number of tables are the registry's and not modelled.
use showdown.Base.{List, [], ◌∷◌, Option, none, false, ℕ}
use showdown.Base.Outcome.{Outcome, ok, refused}
use showdown.Table.Settings.{Settings}
use showdown.Table.Settings.Fields.{Field}
use showdown.Table.Settings.Validate.{validate}
use showdown.Table.Types.{Table, waiting, no_phase, TableError, from_settings}

-- The seats of a new table.
abbrev pub empty_seats : List (Option ℕ)
empty_seats = none ∷ none ∷ none ∷ none ∷ none ∷ none ∷ none ∷ none ∷ none ∷ none ∷ []

-- `newTable`, with the state and the settings that `Create` sets.
abbrev pub new_table : Settings → Table
new_table s = record {
  state = waiting;
  ended_at = 0;
  settings = s;
  hand_number = 0;
  button_seat = none;
  round_start_hand = 0;
  seats = empty_seats;
  players = [];
  names = [];
  hand = none;
  hand_started_at = 0;
  hand_start_stacks = [];
  hand_phase = no_phase;
  deadline = 0;
  to_act_seat = none;
  seq = 0;
  pending_chips = [];
  sit_out_pending = [];
  end_after_hand = false;
  start_pending = false;
  rabbit_cards = none;
  blinds_up_at = 0;
  blinds_paused_ms = 0;
  phase_ends_at = 0;
  next_hand_at = 0;
  time_bank_using = false;
  rit_votes = none;
  rit_ends_at = 0;
  rit_decided = false;
  timer = none;
  log = [];
}

abbrev pub when_valid : List Field → Settings → Outcome TableError Table
when_valid [] s = ok (new_table s)
when_valid (f ∷ fs) s = refused (from_settings (f ∷ fs))

-- `Create`: the settings are checked for a table without players.
unfoldable pub create : Settings → Outcome TableError Table
unfolding validate
create s = when_valid (validate s 0) s
