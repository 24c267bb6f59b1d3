-- ===== src/Poker/Hand/Deal/Posting.antt =====
-- hand.go, `NewHand`: the antes, the dead blinds, the blinds and the straddle.
use showdown.Base.{
  ℕ, ◌+◌, ◌-◌, Bool, false, ◌&&◌, List, [], ◌∷◌, Option, none, some, ltb, leb, ◌==◌, if◌then◌else◌,
  length, get_elem?, min, max, modify,
}
use showdown.Poker.Types.{Player, BlindKind, small, big, dead, straddle, ante_posted, blind_posted}
use showdown.Poker.Hand.State.{Hand, Run, emit, next, clockwise}

abbrev pub post : ℕ → Player → Player
post amt p = record p {
  stack = p.stack - amt;
  committed = p.committed + amt;
  all_in = p.stack - amt == 0;
}

-- The loop over the antes.
unfoldable pub post_antes : ℕ → List ℕ → Run → Run
unfolding emit
post_antes ante [] run = run
post_antes ante (i ∷ is) (h, es) = elim (get_elem? h.players i) [
  | none ↦ post_antes ante is (h, es)
  | some p ↦
      let amt = min ante p.stack in
      post_antes ante is (
        emit (record h { players = modify i (post amt) h.players }, es)
          (ante_posted p.seat amt (p.stack - amt == 0)))
]

abbrev pub owes_dead : Player → Bool
owes_dead p = ltb 0 p.dead_blind && ltb 0 p.stack

-- The loop over the dead blinds.
unfoldable pub post_dead : List ℕ → Run → Run
unfolding emit
post_dead [] run = run
post_dead (i ∷ is) (h, es) = elim (get_elem? h.players i) [
  | none ↦ post_dead is (h, es)
  | some p ↦
      let amt = min p.dead_blind p.stack in
      post_dead is (
        if owes_dead p
        then emit (record h { players = modify i (post amt) h.players }, es)
            (blind_posted p.seat dead amt (p.stack - amt == 0))
        else (h, es))
]

abbrev pub post_bet : ℕ → Player → Player
post_bet amt p = record p { stack = p.stack - amt; bet = p.bet + amt; all_in = p.stack - amt == 0 }

-- `h.postBlind` for the player at an index, and its event.
unfoldable pub post_blind : ℕ → ℕ → BlindKind → Run → Run
unfolding emit
post_blind i amount kind (h, es) = elim (get_elem? h.players i) [
  | none ↦ (h, es)
  | some p ↦
      let amt = min amount p.stack in
      emit (record h { players = modify i (post_bet amt) h.players }, es)
        (blind_posted p.seat kind amt (p.stack - amt == 0))
]

-- What a straddle does to the price: a full one sets it, a short one may raise it.
abbrev pub set_price : ℕ → ℕ → Hand → Hand
set_price amount posted h =
    if leb amount posted
    then record h { current_bet = amount; last_full_bet_level = amount; last_raise_size = amount }
    else record h { current_bet = max h.current_bet posted }

abbrev pub is_seat : Option ℕ → ℕ → Bool
is_seat none seat = false
is_seat (some s) seat = s == seat

-- The straddle of the player left of the big blind, at the index `utg`.
unfoldable pub post_straddle : ℕ → Run → Run
unfolding post_blind
post_straddle utg (h, es) = elim (get_elem? h.players utg) [
  | none ↦ (h, es)
  | some p ↦
      let (h', es') = post_blind utg h.cfg.straddle_amount straddle (h, es) in
      if ltb 0 h.cfg.straddle_amount
        && (leb 3 (length h.players) && (is_seat h.cfg.straddle_seat p.seat && ltb 0 p.stack))
      then (
        set_price h.cfg.straddle_amount (min h.cfg.straddle_amount p.stack)
            (record h' { straddle_seat = some p.seat }),
        es',
      )
      else (h, es)
]

-- The seat at an index.
abbrev pub seat_at : List Player → ℕ → ℕ
seat_at ps i = elim (get_elem? ps i) [ none ↦ 0 | some p ↦ p.seat ]

-- The index of the small blind: the button itself with two players.
abbrev pub small_index : List Player → ℕ → ℕ
small_index ps button = if length ps == 2 then button else next ps button

abbrev pub set_blind_price : Hand → Hand
set_blind_price h = record h {
  current_bet = h.cfg.big_blind;
  last_full_bet_level = h.cfg.big_blind;
  last_raise_size = h.cfg.big_blind;
}

unfoldable pub post_blinds : ℕ → Run → Run
unfolding post_blind
post_blinds button (h, es) =
    let sb = small_index h.players button in
    let (h', es') =
      post_blind (next h.players sb) h.cfg.big_blind big
        (post_blind sb h.cfg.small_blind small (h, es)) in
    (set_blind_price h', es')

-- Everything that is posted before the cards; without an ante there is no ante event.
unfoldable pub post_all : ℕ → Run → Run
unfolding post_antes post_dead post_blinds post_straddle
post_all button (h, es) =
    let round = clockwise h.players (next h.players button) (length h.players) in
    let utg = next h.players (next h.players (small_index h.players button)) in
    post_straddle utg (
      post_blinds button (
        post_dead round
          (if ltb 0 h.cfg.ante then post_antes h.cfg.ante round (h, es) else (h, es))))
