-- ===== src/Table/Tests/Games.antt =====
-- A table on which two players sit down, and a hand is dealt to them; with the theorems about tables.
use showdown.Base.{◌≡◌, refl, false, none}
use showdown.Base.Text.{text}
use showdown.Base.Outcome.{Outcome, ok, refused, panic}
use showdown.Base.{◌+◌, ◌-◌, ◌∷◌, arith, List, [], ℕ, some}
use showdown.Base.Int.{pos}
use showdown.Table.Settings.{default_settings}
use showdown.Table.Settings.Valid.{IsValid}
use showdown.Table.Types.{ended, running, table_ended}
use showdown.Table.Clock.{raised}
use showdown.Table.Host.{start, pause, resume}
use showdown.Base.{insertion_sort}
use showdown.Poker.Card.{variant_deck, variant_deck_size}
use showdown.Poker.Hand.Turn.{settle}
use showdown.Poker.Hand.Round.{round_complete, next_actor}
use showdown.Poker.Hand.Views.{seat_to_act}
use showdown.Table.Engine.{after_phase}
use showdown.Table.Deal.{maybe_start_hand}
use showdown.Table.Deal.{next_button, deal_from, raise_due}
use showdown.Table.Ended.{serve-closed}
use showdown.Table.Choices.{SeatAnswer, join_seat-SeatAnswer, Nearest, next_button-Nearest}
use showdown.Table.Blinds.{Grows, raised-IsValid, resume-pause}
use showdown.Table.Types.{Table, call_any, TablePlayer, Deps, Delays, TableError}
use showdown.Table.Players.{Newcomer, join, join_seat, seat_newcomer, new_player}
use showdown.Table.Clock.{schedule_start}
use showdown.Table.Create.{new_table}
use showdown.Table.Sound.{Sound}
use showdown.Table.Seats.{change_player}
use showdown.Poker.Hand.State.{Hand}
use showdown.Table.Sound.Reached.{joins, starts, serve, Reached}
use showdown.Table.Settings.Validate.{validate}
use showdown.Table.Settings.Checks.{validate-IsValid}

abbrev delays : Delays
delays = record {
  street = 1000;
  runout = 2000;
  showdown_time = 3000;
  showdown_per_hand = 1500;
  result_extension = 2000;
  run_twice_decision = 10_000;
  pot_award = 1200;
}

-- The clock stands still and the deck is not shuffled.
abbrev deps : Deps
deps = record { now = 1000; rand_intn = λ n. 0; shuffle = λ cs. cs; delays = delays }

abbrev ann : Newcomer
ann = record {
  id = 1;
  name = text "Ann";
  name_key = text "ann";
  avatar = 2;
  hat = text "";
  account_id = text "";
  account_handle = text "";
  bot = false;
}

abbrev ben : Newcomer
ben = record ann { id = 2; name = text "Ben"; name_key = text "ben" }

abbrev new : Table
new = new_table default_settings

abbrev outcome_or : Table → Outcome TableError Table → Table
outcome_or t (ok u) = u
outcome_or t (refused e) = t
outcome_or t panic = t

abbrev will_call : TablePlayer → TablePlayer
will_call p = record p { pre_action = call_any }

unfoldable one_player : Table
unfolding serve join join_seat seat_newcomer new_player schedule_start
one_player = outcome_or new (serve deps new (joins ann none))

unfoldable two_players : Table
unfolding serve join join_seat seat_newcomer new_player schedule_start one_player
two_players = outcome_or new (serve deps one_player (joins ben none))

-- The host starts; both players will call whatever comes.
unfoldable playing : Table
unfolding serve two_players one_player
playing = outcome_or two_players (serve deps two_players starts)

abbrev armed : Table
armed = change_player will_call 1 (change_player will_call 2 playing)

hand_there : (h : Hand) × (playing.hand ≡ some h)
unfolding playing serve start deal_from raise_due insertion_sort variant_deck variant_deck_size
    settle round_complete next_actor after_phase seat_to_act
hand_there = (_, refl)

abbrev closed_table : Table
closed_table = record new { state = ended }

serve-closed_example : serve deps closed_table (joins ann none) ≡ refused table_ended
serve-closed_example = serve-closed deps closed_table (joins ann none) refl refl

join_seat-SeatAnswer_example : SeatAnswer two_players (join_seat two_players none)
join_seat-SeatAnswer_example = join_seat-SeatAnswer two_players

-- Ann in seat 3 and Ben in seat 7.
abbrev apart : List TablePlayer
apart = new_player deps new 3 ann ∷ new_player deps new 7 ben ∷ []

next_button-Nearest_example :
    (seat : ℕ) × (next_button deps apart (some 8) ≡ ok seat) × Nearest apart 9 seat
unfolding new_player
next_button-Nearest_example = next_button-Nearest deps apart 8 3 (omega arith) refl

button_moves : next_button deps apart (some 8) ≡ ok 3
unfolding next_button new_player
button_moves = refl

default-IsValid_empty : IsValid default_settings 0
unfolding validate
default-IsValid_empty = (validate-IsValid default_settings 0).0 refl

raised-IsValid_example :
    IsValid (raised default_settings) 0 × Grows default_settings (raised default_settings)
raised-IsValid_example =
    raised-IsValid default_settings 0 default-IsValid_empty (omega arith) (omega arith)

-- A running table whose blinds rise in nine seconds.
abbrev scheduled : Table
scheduled = record new {
  state = running;
  settings = record default_settings { blinds_up_minutes = pos 10 };
  blinds_up_at = 10_000;
}

abbrev halted : Table
halted = outcome_or new (pause deps scheduled)

scheduled-paused : pause deps scheduled ≡ ok halted
unfolding pause
scheduled-paused = refl

abbrev later : Deps
later = record deps { now = 60_000 }

resume-pause_example :
    (x : Table) × (resume later halted ≡ maybe_start_hand later x)
    × (x.blinds_up_at ≡ 60_000 + (10_000 - 1000))
    × (x.state ≡ running)
resume-pause_example = resume-pause deps later scheduled halted scheduled-paused (omega arith) refl
