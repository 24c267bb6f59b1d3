-- ===== src/Poker/Hand/Settles.antt =====
-- `settle` always returns: the panic of its last line is out of reach, and the hand that it
-- leaves is valid and has the same chips.
use showdown.Base.{
  ℕ, ◌≤◌, ◌<◌, ◌≡◌, refl, sym, ◌⊎◌, inl, inr, Bool, true, false, List, [], ◌∷◌, Option, none, some,
  arith, ◌==◌, if◌then◌else◌, length, any, all, get_elem?, All, Bool-cases,
}
use mathlib.Core.Path.{subst}
use showdown.Base.Outcome.{Returns}
use showdown.Poker.Types.{Player, Event, betting}
use showdown.Poker.Hand.State.{Hand, is_betting, live, count, total_chips, next}
use showdown.Poker.Hand.Round.{needs_to_act, next_actor, is_done, round_complete}
use showdown.Poker.Hand.Turn.{last_live, finish_last, hand_turn, settle}
use showdown.Poker.Hand.Chips.{seated}
use showdown.Poker.Hand.Inv.{Dealt, Good, PhaseInv, set_turn}
use showdown.Poker.Hand.Ids.{length-ids}
use showdown.Poker.Hand.Scan.{get-lt, scan-found, scan_sound, next-lt}
use showdown.Poker.Hand.Showdown.{end_street-Good}
use showdown.Poker.Hand.Awards.{finish_uncontested-Good}

-- Nobody has bet more than the current bet.
abbrev pub Covered : ℕ → List Player → Type 0
Covered bet ps = All (λ p. p.bet ≤ bet) ps

not_done-needs :
    (bet n : ℕ) (ps : List Player)
    → Covered bet ps
    → all (is_done bet n) ps ≡ false
    → any (needs_to_act bet) ps ≡ true
not_done-needs bet n [] c h = cc
not_done-needs bet n (p ∷ ps) c h = ground (arith, c.0, not_done-needs bet n ps c.1)

-- From any index in range, with no bet above the current one, `nextActor` finds a player who owes
-- an action while the round is not complete.
pub next_actor-found :
    (h : Hand) (from : ℕ) (inclusive : Bool)
    → from < length h.players
    → Covered h.current_bet h.players
    → round_complete h ≡ false
    → (i : ℕ) × (next_actor h from inclusive ≡ some i)
      × ((p : Player) × (get_elem? h.players i ≡ some p) × (needs_to_act h.current_bet p ≡ true))
unfolding next_actor round_complete
next_actor-found h from inclusive lt c open_round =
    let some_one = not_done-needs h.current_bet _ h.players c open_round in
    let start : ℕ = if inclusive then from else next h.players from in
    let (i, e) =
      scan-found (needs_to_act h.current_bet) h.players start (in_range inclusive) some_one in
    (i, e, scan_sound (needs_to_act h.current_bet) h.players start (length h.players) i e)
  where
    in_range : (b : Bool) → (if b then from else next h.players from) < length h.players
    in_range true = lt
    in_range false = next-lt h.players from (omega arith)

last_live-or :
    (ps : List Player) (last : Option ℕ)
    → ((1 ≤ count live ps) × ((s : ℕ) × (last_live ps last ≡ some s) × (seated ps s ≡ true)))
      ⊎ ((count live ps ≡ 0) × (last_live ps last ≡ last))
unfolding last_live
last_live-or [] last = inr (refl, refl)
last_live-or (p ∷ ps) last = elim (Bool-cases (live p)) [
  | inl l ↦ inl (
    ground (arith, l),
    rw (l, last_live)
        (elim (last_live-or ps (some p.seat)) [
          | inl (_, (s, e, here)) ↦ (s, e, ground (arith, here))
          | inr (_, e) ↦ (p.seat, e, ground arith)
        ]),
  )
  | inr l ↦
      rw (l, last_live)
        (elim (last_live-or ps last) [
          | inl (n, (s, e, here)) ↦ inl (ground (arith, n, l), (s, e, ground (arith, here)))
          | inr (n, e) ↦ inr (ground (arith, n, l), e)
        ])
]

pub last_live-found :
    (ps : List Player)
    → 1 ≤ count live ps
    → (s : ℕ) × (last_live ps none ≡ some s) × (seated ps s ≡ true)
last_live-found ps h = elim (last_live-or ps none) [
  | inl (_, r) ↦ r
  | inr (z, _) ↦ absurd (omega arith)
]

pub finish_last-Good :
    (h : Hand) (es : List Event)
    → Dealt h
    → 1 ≤ count live h.players
    → Returns (Good (total_chips h)) (finish_last (h, es) (last_live h.players none))
unfolding finish_last
finish_last-Good h es d l =
    let (s, e, here) = last_live-found h.players l in rw e (finish_uncontested-Good h es s d here)

-- In a betting round with the bets covered and somebody left, `settle` returns.
pub settle-Good :
    (h : Hand) (es : List Event) (from : ℕ) (inclusive : Bool)
    → h.phase ≡ betting
    → Dealt h
    → Covered h.current_bet h.players
    → 1 ≤ count live h.players
    → from < length h.players
    → Returns (Good (total_chips h)) (settle (h, es) from inclusive)
unfolding settle hand_turn
settle-Good h es from inclusive ph d c l lt =
    let b : is_betting h.phase ≡ true = rw ph in
    elim (Bool-cases (count live h.players == 1)) [
      | inl one ↦ rw (b, one) (finish_last-Good h es d l)
      | inr more ↦
          let two : 2 ≤ count live h.players = ground arith in
          elim (Bool-cases (round_complete h)) [
            | inl r ↦ rw (b, more, r) (end_street-Good h es d two)
            | inr r ↦
                let (i, e, (p, at, _)) = next_actor-found h from inclusive lt c r in
                let here : i < length h.players = get-lt h.players i p at in
                rw (b, more, r, e)
                  (
                    record {
                      dealt = set_turn (some i) (ground (arith, here, length-ids h.players)) d;
                      by_phase =
                          subst (λ f. PhaseInv f (record h { to_act = some i })) (sym ph) (c, two);
                    },
                    refl,
                  )
          ]
    ]
