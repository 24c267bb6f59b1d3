-- ===== src/Poker/Hand/Awards.antt =====
-- Finishing a hand: nothing panics, the hand is over and every chip is back in a stack.
use showdown.Base.{all, none, if_both, sym, if◌then◌else◌}
use showdown.Base.{
  ℕ, suc, ◌+◌, ◌≤◌, ◌≡◌, refl, ◌∙◌, inl, inr, Bool, true, ◌&&◌, List, [], ◌∷◌, ◌++◌, arith, ◌==◌,
  map, any, sum_by-map, sum_by-modify, sum_by-modify_at, any-modify, All, All-map_to, Bool-cases,
  any-map,
}
use mathlib.Core.Path.{subst}
use showdown.Base.Outcome.{Returns}
use showdown.Poker.Pots.{Pot, amounts}
use showdown.Poker.Types.{Player, PotAward, PotWinner, Event, pots_updated}
use showdown.Poker.Hand.State.{Hand, emit, worth, live, count, pots, total_chips, modify_seat}
use showdown.Poker.Hand.Round.{collect, collect_one, return_uncalled, take_back}
use showdown.Poker.Hand.Show.{mark_revealed, to_reveal, mem}
use showdown.Poker.Hand.Award.{
  finish, spend, announce, announce_winners, award_pots, second_values, award_to, win, finish_for,
  finish_uncontested, winning_seats, report,
}
use showdown.Poker.Hand.Turn.{is_river}
use showdown.Poker.Hand.Chips.{stacks, worths, worths-no_bets, amounts-pots, seated}
use showdown.Poker.Hand.Uncalled.{
  return_uncalled_cases, take_back-worth, worths-collect, collect-no_bets,
}
use showdown.Poker.Hand.Shows.{IsOk, traverse-known, report-IsOk, reveal_where-IsOk, values_on-IsOk}
use showdown.Poker.Hand.Paying.{Paid, Paid-refl, Paid-trans, win-Paid, pay_pots-PaysOut}
use showdown.Poker.Hand.Ids.{ids, id_of, known, ids-map, ids-modify}
use showdown.Poker.Hand.Inv.{
  same_ids, set_turn, Dealt, NoBets, Good, board-le, river_size, pots-Winnable,
}

spent_worths : (ps : List Player) → NoBets ps → worths (map spend ps) ≡ stacks ps
spent_worths [] h = refl
spent_worths (p ∷ ps) h = omega (arith, h.0, spent_worths ps h.1)

All-spent : (ps : List Player) → All (λ p. p.committed ≡ 0) (map spend ps)
All-spent [] = tt
All-spent (p ∷ ps) = (refl, All-spent ps)

-- Finishing: the results are there and the stacks are what is left.
pub finish-Good :
    (h : Hand) (es : List Event) (awards : List PotAward) (final : List Pot)
    → Dealt h
    → NoBets h.players
    → Returns (Good (stacks h.players)) (finish (h, es) awards final)
unfolding finish emit
finish-Good h es awards final d n =
    let (seats, e) =
      traverse-known (report h.board) h.players d.players_known
        (report-IsOk h.board (board-le h d) d.board_valid) in
    rw e (
      record {
        dealt = set_turn none refl (same_ids (ids-map spend h.players λ p. refl) d);
        by_phase = (
          All-map_to (λ p. p.bet ≡ 0) (λ p. p.bet ≡ 0) spend (λ p k. k) h.players n,
          All-spent h.players,
          (_, refl),
        );
      },
      spent_worths h.players n,
    )

announce_winners-run :
    (a : PotAward) (ws : List PotWinner) (h : Hand) (es : List Event)
    → (n : ℕ) × (out : List Event) × (announce_winners a ws (h, es) ≡ (record h { seq = n }, out))
unfolding emit
announce_winners-run a [] h es = (h.seq, es, refl)
announce_winners-run a (w ∷ ws) h es =
    let (n, out, e) = announce_winners-run a ws (record h { seq = h.seq + 1 }) _ in (n, out, e)

-- The events of the awards change their number only.
announce-run :
    (awards : List PotAward) (h : Hand) (es : List Event)
    → (n : ℕ) × (out : List Event) × (announce awards (h, es) ≡ (record h { seq = n }, out))
announce-run [] h es = (h.seq, es, refl)
announce-run (a ∷ rest) h es =
    let (n, out, e) = announce_winners-run a a.winners h es in
    let (m, last, f) = announce-run rest (record h { seq = n }) out in (m, last, rw e f)

second_values-IsOk : (h : Hand) → Dealt h → is_river h.street ≡ true → IsOk (second_values h)
second_values-IsOk h d r = elim (Bool-cases h.run_twice) [
  | inl e ↦
      let full = d.board2_full e in
      let (vs, f) =
        values_on-IsOk h.players h.board2 (omega (arith, full, river_size h.street r))
          (omega (arith, full, river_size h.street r)) d.board2_valid d.players_known in
      rw (f, e) (_, refl)
  | inr e ↦ rw e (_, refl)
]

mark_revealed-stacks :
    (t : Player → Bool) (ps : List Player) → stacks (mark_revealed t ps) ≡ stacks ps
mark_revealed-stacks t ps = sum_by-map (λ p. p.stack) _ (λ p. ground arith) ps

pub ids-mark_revealed : (t : Player → Bool) (ps : List Player) → ids (mark_revealed t ps) ≡ ids ps
ids-mark_revealed t ps =
    ids-map (λ p. if t p then record p { revealed = true } else p) ps
      λ p. if_both (λ q. id_of q ≡ id_of p) (t p) (λ _. refl) λ _. refl

pub mark_revealed-NoBets :
    (t : Player → Bool) (ps : List Player) → NoBets ps → NoBets (mark_revealed t ps)
mark_revealed-NoBets t ps = All-map_to (λ p. p.bet ≡ 0) (λ p. p.bet ≡ 0) _ (λ p k. ground arith) ps

-- At the river, with the cards dealt, the bets collected and a player left, `awardPots` returns
-- without a panic, to a valid hand with the same chips.
pub award_pots-Good :
    (h : Hand) (es : List Event)
    → Dealt h
    → is_river h.street ≡ true
    → NoBets h.players
    → 1 ≤ count live h.players
    → Returns (Good (total_chips h)) (award_pots (h, es))
unfolding award_pots
award_pots-Good h es d r n alive =
    let size = river_size h.street r in
    let (vs, e) =
      values_on-IsOk h.players h.board (omega (arith, d.board_full, size))
        (omega (arith, d.board_full, size)) d.board_valid d.players_known in
    let (vs2, f) = second_values-IsOk h d r in
    let (qs, awards, g, paid) =
      pay_pots-PaysOut h.cfg.button_seat vs vs2 0 (pots h.players) h.players
        (pots-Winnable h.players alive) in
    let t : Player → Bool = λ p.
      to_reveal p && any (mem p.seat) (winning_seats h.cfg.button_seat vs vs2 (pots h.players)) in
    let here : all known (ids qs) ≡ true =
      subst (λ is. all known is ≡ true) (sym paid.ids_same) d.players_known in
    let (m, shown, k) =
      reveal_where-IsOk t (record h { players = qs }) es (board-le h d) d.board_valid here in
    let (l, said, a) =
      announce-run awards (record h { players = mark_revealed t qs; seq = m }) shown in
    let whole : stacks (mark_revealed t qs) ≡ total_chips h = omega (
      arith,
      mark_revealed-stacks t qs,
      paid.received,
      amounts-pots h.players,
      worths-no_bets h.players n,
    ) in
    rw (e, f, g, k, a)
      (subst
        (λ c. Returns (Good c) (
          finish (record h { players = mark_revealed t qs; seq = l }, said) awards
            (pots h.players)))
        whole
        (finish-Good (record h { players = mark_revealed t qs; seq = l }) said awards
          (pots h.players) (same_ids (ids-mark_revealed t qs ∙ paid.ids_same) d)
          (mark_revealed-NoBets t qs (paid.no_bets n))))

-- The loop of `finishUncontested` pays every pot to one player.
award_to-Paid :
    (seat i : ℕ) (final : List Pot) (h : Hand) (es : List Event)
    → seated h.players seat ≡ true
    → (qs : List Player) × (n : ℕ) × (out : List Event) × ((award_to seat i final (h, es)).0
        ≡ (record h { players = qs; seq = n }, out))
      × Paid h.players (amounts final) qs
unfolding award_to emit
award_to-Paid seat i [] h es here = (h.players, h.seq, es, refl, Paid-refl h.players)
award_to-Paid seat i (pot ∷ final) h es here =
    let first = win-Paid seat pot.amount h.players here in
    let (qs, n, out, e, rest) =
      award_to-Paid seat (suc i) final
        (record h { players = modify_seat seat (win pot.amount) h.players; seq = h.seq + 1 }) _
        (first.seated_same seat ∙ here) in
    (qs, n, out, e, Paid-trans first rest)

-- The last player in the hand takes the pots, once the bets are collected.
finish_for-Good :
    (seat : ℕ) (h : Hand) (es : List Event)
    → Dealt h
    → NoBets h.players
    → seated h.players seat ≡ true
    → Returns (Good (total_chips h)) (finish_for seat (h, es))
unfolding finish_for emit
finish_for-Good seat h es d n here =
    let awards : List PotAward =
      (award_to seat 0 (pots h.players) (emit (h, es) (pots_updated (pots h.players)))).1 in
    let told : List Event =
      es ++ record { seq = h.seq + 1; body = pots_updated (pots h.players) } ∷ [] in
    let (qs, m, out, e, paid) =
      award_to-Paid seat 0 (pots h.players) (record h { seq = h.seq + 1 }) told here in
    let whole : stacks qs ≡ total_chips h =
      omega (arith, paid.received, amounts-pots h.players, worths-no_bets h.players n) in
    rw e (
      subst
        (λ c.
          Returns (Good c)
            (finish (record h { players = qs; seq = m }, out) awards (pots h.players)))
        whole
        (finish-Good (record h { players = qs; seq = m }) out awards (pots h.players)
          (same_ids paid.ids_same d) (paid.no_bets n)))

-- What a run that continues from another must keep: the deal, the chips, who sits there and who is
-- still in the hand.
pub record Keeps (h k : Hand) : Type 0 where
  pub deal_kept : Dealt h → Dealt k
  pub chips_kept : total_chips k ≡ total_chips h
  pub seats_kept : (s : ℕ) → seated k.players s ≡ seated h.players s
  pub live_kept : count live k.players ≡ count live h.players
  pub street_kept : k.street ≡ h.street

pub return_uncalled-Keeps : (h : Hand) (es : List Event) → Keeps h (return_uncalled (h, es)).0
return_uncalled-Keeps h es =
    return_uncalled_cases (λ r. Keeps h r.0) h es
      (record {
        deal_kept = λ d. d;
        chips_kept = refl;
        seats_kept = λ s. refl;
        live_kept = refl;
        street_kept = refl;
      })
      λ i diff p e le _.
        unfold emit in
        record {
          deal_kept = λ d. same_ids (ids-modify (take_back diff) i h.players λ q. refl) d;
          chips_kept = omega (
            arith,
            sum_by-modify_at worth (take_back diff) i p h.players e,
            take_back-worth diff p le,
          );
          seats_kept = λ s. any-modify (λ q. q.seat == s) (take_back diff) (λ q. refl) i h.players;
          live_kept = sum_by-modify _ (take_back diff) (λ q. refl) i h.players;
          street_kept = refl;
        }

-- A hand that one player is left in ends at once, with the uncalled bet returned.
pub finish_uncontested-Good :
    (h : Hand) (es : List Event) (seat : ℕ)
    → Dealt h
    → seated h.players seat ≡ true
    → Returns (Good (total_chips h)) (finish_uncontested (h, es) seat)
unfolding finish_uncontested
finish_uncontested-Good h es seat d here =
    let k : Hand = (return_uncalled (h, es)).0 in
    let kept = return_uncalled-Keeps h es in
    subst (λ c. Returns (Good c) (finish_for seat (collect k, (return_uncalled (h, es)).1)))
      (worths-collect k.players ∙ kept.chips_kept)
      (finish_for-Good seat (collect k) (return_uncalled (h, es)).1
        (same_ids (ids-map collect_one k.players λ q. refl) (kept.deal_kept d))
        (collect-no_bets k.players)
        (any-map (λ q. q.seat == seat) collect_one (λ q. refl) k.players
          ∙ kept.seats_kept seat
          ∙ here))
