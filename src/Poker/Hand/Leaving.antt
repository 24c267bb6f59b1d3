-- ===== src/Poker/Hand/Leaving.antt =====
-- A player who leaves: `Forfeit` on a valid hand.
use showdown.Base.{
  ℕ, suc, ◌+◌, ◌≤◌, ◌<◌, ◌≡◌, refl, sym, ◌⊎◌, inl, inr, true, false, ◌||◌, List, [], ◌∷◌, Option,
  none, some, arith, ◌==◌, if◌then◌else◌, length, Bool-cases, Option-cases, or_false,
}
use mathlib.Core.Path.{subst}
use showdown.Base.Outcome.{ok, Returns}
use showdown.Poker.Types.{
  Player, Event, Phase, betting, deal_pending, showing, result, acted, fold, preflop,
}
use showdown.Poker.Hand.State.{
  Hand, emit, is_betting, is_showing, is_result, worth, live, count, total_chips, by_seat,
  modify_seat, index_from,
}
use showdown.Poker.Hand.Round.{round_complete}
use showdown.Poker.Hand.Turn.{end_street}
use showdown.Poker.Hand.Calls.{leave, leave_turn, after_leaving, forfeit}
use showdown.Poker.Hand.Chips.{sum_by-modify_seat, sum_by-modify_seat_at, All-modify_seat}
use showdown.Poker.Hand.Ids.{ids-modify_seat}
use showdown.Poker.Hand.Inv.{same_ids, Dealt, Inv, Good, PhaseInv}
use showdown.Poker.Hand.Showdown.{end_street-Good}
use showdown.Poker.Hand.Settles.{Covered, settle-Good, finish_last-Good}

pub index_from-lt :
    (k s : ℕ) (ps : List Player) (i : ℕ) → index_from k s ps ≡ some i → i < k + length ps
index_from-lt k s [] i h = cc
index_from-lt k s (p ∷ ps) i h = ground (arith, index_from-lt (suc k) s ps i)

-- In a betting round, with at least two players left.
leave_turn-Good :
    (h : Hand) (es : List Event) (seat : ℕ)
    → h.phase ≡ betting
    → Dealt h
    → Covered h.current_bet h.players
    → 2 ≤ count live h.players
    → Returns (Good (total_chips h)) (leave_turn (h, es) (index_from 0 seat h.players) h.to_act)
unfolding leave_turn
leave_turn-Good h es seat ph d c two = by_turn (index_from 0 seat h.players) h.to_act refl
  where
    stay : Inv h
    stay = record { dealt = d; by_phase = subst (λ f. PhaseInv f h) (sym ph) (c, two) }

    round :
        Returns (Good (total_chips h)) (if round_complete h then end_street (h, es) else ok (h, es))
    round = elim (Bool-cases (round_complete h)) [
      | inl r ↦ rw r (end_street-Good h es d two)
      | inr r ↦ rw r (stay, refl)
    ]

    by_turn :
        (i j : Option ℕ)
        → index_from 0 seat h.players ≡ i
        → Returns (Good (total_chips h)) (leave_turn (h, es) i j)
    by_turn none j e = round
    by_turn (some i) none e = round
    by_turn (some i) (some j) e = elim (Bool-cases (j == i)) [
      | inl same ↦ rw same (
          settle-Good h es i false ph d c (omega arith)
            (omega (arith, index_from-lt 0 seat h.players i e)))
      | inr other ↦ rw other round
    ]

after_leaving-Good :
    (h : Hand) (es : List Event) (seat : ℕ)
    → Dealt h
    → 1 ≤ count live h.players
    → ((h.phase ≡ betting) × Covered h.current_bet h.players)
      ⊎ ((h.phase ≡ deal_pending) × (2 ≤ count live h.players → Inv h))
    → Returns (Good (total_chips h)) (after_leaving (h, es) seat)
unfolding after_leaving
after_leaving-Good h es seat d one at = elim (Bool-cases (count live h.players == 1)) [
  | inl e ↦ rw e (finish_last-Good (record h { phase = betting }) es d one)
  | inr e ↦
      let two : 2 ≤ count live h.players = ground arith in
      elim at [
        | inl (ph, c) ↦
            let b : is_betting h.phase ≡ true = rw ph in
            rw (e, b) (leave_turn-Good h es seat ph d c two)
        | inr (ph, v) ↦ let b : is_betting h.phase ≡ false = rw ph in rw (e, b) (v two, refl)
      ]
]

Phase-open :
    (f : Phase) → (is_result f || is_showing f) ≡ false → (f ≡ betting) ⊎ (f ≡ deal_pending)
Phase-open betting h = inl refl
Phase-open deal_pending h = inr refl
Phase-open showing h = cc
Phase-open result h = cc

-- `Forfeit` on a valid hand returns for every seat, without a panic and without a refusal, and
-- leaves a valid hand with the same chips.
pub forfeit-Good : (h : Hand) (seat : ℕ) → Inv h → Returns (Good (total_chips h)) (forfeit h seat)
unfolding forfeit emit
forfeit-Good h seat v = elim (Option-cases (by_seat h.players seat)) [
  | inl e ↦ rw (e, forfeit) (v, refl)
  | inr (p, e) ↦ elim (Bool-cases (p.folded || (is_result h.phase || is_showing h.phase))) [
    | inl f ↦ rw (e, forfeit, f) (v, refl)
    | inr f ↦
        let (in_hand, open_phase) : (p.folded ≡ false)
            × ((is_result h.phase || is_showing h.phase) ≡ false) =
          or_false p.folded (is_result h.phase || is_showing h.phase) f in
        let fewer = sum_by-modify_seat_at (λ q. if live q then 1 else 0) leave seat p h.players e in
        let two : 2 ≤ count live h.players = elim (Phase-open h.phase open_phase) [
          | inl ph ↦ (subst (λ g. PhaseInv g h) ph v.by_phase).1
          | inr ph ↦ (subst (λ g. PhaseInv g h) ph v.by_phase).1
        ] in
        let k : Hand = record h { players = modify_seat seat leave h.players; seq = h.seq + 1 } in
        let told : List Event =
          record { seq = h.seq + 1; body = acted seat fold 0 false preflop } ∷ [] in
        rw (e, forfeit, f)
          (subst (λ c. Returns (Good c) (after_leaving (k, told) seat))
            (sum_by-modify_seat worth leave (λ q. refl) seat h.players)
            (after_leaving-Good k told seat
              (same_ids (ids-modify_seat leave seat h.players λ q. refl) v.dealt)
              (ground (arith, fewer))
              (elim (Phase-open h.phase open_phase) [
                | inl ph ↦
                    let (c, _) : PhaseInv betting h = subst (λ g. PhaseInv g h) ph v.by_phase in
                    inl (
                      ph,
                      All-modify_seat (λ q. q.bet ≤ h.current_bet) leave (λ q b. b) seat h.players
                          c,
                    )
                | inr ph ↦
                    let (n, _, r) : PhaseInv deal_pending h =
                      subst (λ g. PhaseInv g h) ph v.by_phase in
                    inr (
                      ph,
                      λ left. record {
                        dealt = same_ids (ids-modify_seat leave seat h.players λ q. refl) v.dealt;
                        by_phase =
                            subst (λ g. PhaseInv g k) (sym ph)
                              (
                                All-modify_seat (λ q. q.bet ≡ 0) leave (λ q b. b) seat h.players n,
                                left,
                                r,
                              );
                      },
                    )
              ])))
  ]
]
