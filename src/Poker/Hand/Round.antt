-- ===== src/Poker/Hand/Round.antt =====
-- hand.go: whose turn it is and when a betting round is over, the uncalled bet and the collection
-- of the bets.
use showdown.Base.{
  ℕ, suc, ◌+◌, ◌-◌, Bool, false, not, ◌&&◌, ◌||◌, List, [], ◌∷◌, Option, none, some, ltb, leb, ◌==◌,
  if◌then◌else◌, length, get_elem?, modify, map, all,
}
use showdown.Poker.Types.{Player, uncalled_returned}
use showdown.Poker.Hand.State.{Hand, Run, emit, next, scan, active, count}

-- `h.needsToAct`
abbrev pub needs_to_act : ℕ → Player → Bool
needs_to_act current_bet p = active p && (not p.has_acted || ltb p.bet current_bet)

-- `h.nextActor`
unfoldable pub next_actor : Hand → ℕ → Bool → Option ℕ
unfolding scan
next_actor h i inclusive =
    scan (needs_to_act h.current_bet) h.players (if inclusive then i else next h.players i)
      (length h.players)

-- `h.mayRaise`
abbrev pub may_raise : Hand → Player → Bool
may_raise h p = not p.has_acted || ltb p.acted_at_full_level h.last_full_bet_level

-- The second loop of `roundComplete`, for one player.
abbrev pub is_done : ℕ → ℕ → Player → Bool
is_done current_bet actives p =
    not (active p) || (p.bet == current_bet && not (leb 2 actives && not p.has_acted))

-- `h.roundComplete`
unfoldable pub round_complete : Hand → Bool
round_complete h = all (is_done h.current_bet (count active h.players)) h.players

-- The first loop of `returnUncalled`: the index and the bet of the first highest bettor.
unfoldable pub top_bettor : List Player → ℕ → ℕ × ℕ → ℕ × ℕ
top_bettor [] i (top, bet) = (top, bet)
top_bettor (p ∷ ps) i (top, bet) =
    top_bettor ps (suc i) (if ltb bet p.bet then (i, p.bet) else (top, bet))

-- The second loop: the highest bet of the others.
unfoldable pub second_bet : List Player → ℕ → ℕ → ℕ → ℕ
second_bet [] i top second = second
second_bet (p ∷ ps) i top second =
    second_bet ps (suc i) top (if not (i == top) && ltb second p.bet then p.bet else second)

abbrev pub take_back : ℕ → Player → Player
take_back diff p = record p { bet = p.bet - diff; stack = p.stack + diff; all_in = false }

unfoldable pub return_diff : Run → ℕ → ℕ → ℕ → Run
unfolding emit
return_diff (h, es) seat top diff =
    if ltb 0 diff
    then emit (record h { players = modify top (take_back diff) h.players }, es)
        (uncalled_returned seat diff)
    else (h, es)

unfoldable pub return_from_top : Run → ℕ → ℕ → Run
unfolding return_diff second_bet
return_from_top (h, es) top bet = elim (get_elem? h.players top) [
  | none ↦ (h, es)
  | some p ↦ return_diff (h, es) p.seat top (bet - second_bet h.players 0 top 0)
]

-- The first player is the top bettor until somebody has bet more.
unfoldable pub first_top : List Player → ℕ × ℕ
unfolding top_bettor
first_top [] = (0, 0)
first_top (p ∷ ps) = top_bettor ps 1 (0, p.bet)

-- `h.returnUncalled`
unfoldable pub return_uncalled : Run → Run
unfolding return_from_top first_top
return_uncalled (h, es) = let (top, bet) = first_top h.players in return_from_top (h, es) top bet

abbrev pub collect_one : Player → Player
collect_one p = record p { committed = p.committed + p.bet; bet = 0 }

-- `h.collect`
abbrev pub collect : Hand → Hand
collect h = record h { players = map collect_one h.players }
