-- ===== src/Poker/Hand/State.antt =====
-- hand.go: the state of a hand and the small helpers that every part uses. `bySeat` points into
-- `players`, so a seat is looked up there; a write through such a pointer changes that entry.
use showdown.Base.{
  ℕ, zero, suc, ◌+◌, ◌%◌, Bool, true, false, not, ◌&&◌, List, [], ◌∷◌, ◌++◌, Option, none, some,
  ◌==◌, if◌then◌else◌, length, get_elem?, find, map, sum_by,
}
use showdown.Base.Outcome.{Outcome, ok, panic}
use showdown.Poker.Card.{Card}
use showdown.Poker.Pots.{Pot, PotPlayer, build_pots}
use showdown.Poker.Types.{
  Street, Phase, betting, deal_pending, showing, result, HandConfig, Player, Results, Event,
  EventBody, Error,
}

pub record Hand : Type 0 where
  pub cfg : HandConfig
  -- ascending seat order
  pub players : List Player
  pub deck : List Card
  pub deck_pos : ℕ
  pub board : List Card
  pub street : Street
  pub phase : Phase
  pub runout : Bool
  pub sb_seat : ℕ
  pub bb_seat : ℕ
  pub straddle_seat : Option ℕ
  pub run_twice : Bool
  pub board2 : List Card
  -- an index into `players`
  pub to_act : Option ℕ
  pub current_bet : ℕ
  pub last_full_bet_level : ℕ
  pub last_raise_size : ℕ
  pub seq : ℕ
  pub results : Option Results
  pub final_pots : List Pot
  pub aggressor : Option ℕ
  -- seats; `none` is the nil slice
  pub show_order : Option (List ℕ)
  pub show_idx : ℕ
  pub show_winner : List ℕ

-- A hand, and the events of the call so far.
abbrev pub Run : Type 0
Run = Hand × List Event

unfoldable pub emit : Run → EventBody → Run
emit (h, es) b = (record h { seq = h.seq + 1 }, es ++ record { seq = h.seq + 1; body = b } ∷ [])

abbrev pub is_betting : Phase → Bool
is_betting betting = true
is_betting _ = false

abbrev pub is_deal_pending : Phase → Bool
is_deal_pending deal_pending = true
is_deal_pending _ = false

abbrev pub is_showing : Phase → Bool
is_showing showing = true
is_showing _ = false

abbrev pub is_result : Phase → Bool
is_result result = true
is_result _ = false

-- `h.bySeat[seat]`
abbrev pub by_seat : List Player → ℕ → Option Player
by_seat ps seat = find (λ p. p.seat == seat) ps

-- A write through `h.bySeat[seat]`.
abbrev pub modify_seat : ℕ → (Player → Player) → List Player → List Player
modify_seat seat f [] = []
modify_seat seat f (p ∷ ps) = if p.seat == seat then f p ∷ ps else p ∷ modify_seat seat f ps

-- `h.index(seat)`
abbrev pub index_from : ℕ → ℕ → List Player → Option ℕ
index_from i seat [] = none
index_from i seat (p ∷ ps) = if p.seat == seat then some i else index_from (suc i) seat ps

-- `h.next(i)`
abbrev pub next : List Player → ℕ → ℕ
next ps i = (i + 1) % length ps

-- `h.next(h.index(seat))`; the successor of -1 is 0.
abbrev pub next_of : List Player → Option ℕ → ℕ
next_of ps none = 0
next_of ps (some i) = next ps i

-- The indices that a loop `for i, n := start, 0; n < len; i, n = h.next(i), n+1` runs through.
abbrev pub clockwise : List Player → ℕ → ℕ → List ℕ
clockwise ps i zero = []
clockwise ps i (suc n) = i ∷ clockwise ps (next ps i) n

-- The loop `for n := 0; n < len; n++ { if test { return i }; i = h.next(i) }`, with `n` rounds
-- left. An index is always in range.
unfoldable pub scan : (Player → Bool) → List Player → ℕ → ℕ → Option ℕ
scan t ps i zero = none
scan t ps i (suc n) =
    let rest = scan t ps (next ps i) n in
    elim (get_elem? ps i) [ none ↦ rest | some p ↦ if t p then some i else rest ]

abbrev pub live : Player → Bool
live p = not p.folded

abbrev pub active : Player → Bool
active p = not p.folded && not p.all_in

abbrev pub count : (Player → Bool) → List Player → ℕ
count t = sum_by (λ p. if t p then 1 else 0)

-- The chips of a player, wherever they are.
abbrev pub worth : Player → ℕ
worth p = p.stack + p.committed + p.bet

-- `TotalChips`
abbrev pub total_chips : Hand → ℕ
total_chips h = sum_by worth h.players

-- `h.draw`
unfoldable pub draw : Hand → Outcome Error (Hand × Card)
draw h = elim (get_elem? h.deck h.deck_pos) [
  | none ↦ panic
  | some c ↦ ok (record h { deck_pos = h.deck_pos + 1 }, c)
]

abbrev pub pot_player : Player → PotPlayer
pot_player p = record { seat = p.seat; total = p.committed; folded = p.folded; all_in = p.all_in }

-- `h.pots()`
unfoldable pub pots : List Player → List Pot
pots ps = build_pots (map pot_player ps)
