-- ===== src/Poker/Hand/Late.antt =====
-- Showing cards after the hand: `ShowCards` on a valid hand.
use showdown.Base.{true}
use showdown.Base.{
  ℕ, ◌+◌, ◌≡◌, refl, sym, ◌∙◌, inl, inr, Bool, false, not, ◌&&◌, ◌||◌, Option, some, Option-cases,
  if_both,
}
use mathlib.Core.Path.{subst}
use showdown.Base.Outcome.{Outcome, Returns, Ensures, Ensures-of_Returns}
use showdown.Poker.Types.{Player, Error, Phase, betting, deal_pending, showing, result, Results}
use showdown.Poker.Hand.State.{Hand, Run, emit, is_result, by_seat, modify_seat, worth, total_chips}
use showdown.Poker.Hand.Calls.{show_both, show_one, show_cards, show_some, show_whole}
use showdown.Poker.Hand.Chips.{sum_by-modify_seat, All-modify_seat}
use showdown.Poker.Hand.Shows.{reveal-IsOk}
use showdown.Poker.Hand.Ids.{id_of, known, by_seat-known, ids-modify_seat}
use showdown.Poker.Hand.Inv.{same_ids, PhaseInv, Inv, Good, board-le}

-- A change of what a player shows, after the hand.
shown-Inv :
    (h : Hand) (f : Player → Player) (seat n : ℕ) (res : Results)
    → ((p : Player)
        → (worth (f p) ≡ worth p) × ((f p).bet ≡ p.bet) × ((f p).committed ≡ p.committed))
    → ((p : Player) → id_of (f p) ≡ id_of p)
    → h.phase ≡ result
    → Inv h
    → Inv (record h { players = modify_seat seat f h.players; results = some res; seq = n })
shown-Inv h f seat n res same own ph v =
    let (none_bet, none_in, _) : PhaseInv result h = subst (λ g. PhaseInv g h) ph v.by_phase in
    let k : Hand = record h {
      players = modify_seat seat f h.players;
      results = some res;
      seq = n;
    } in
    let here : PhaseInv result k = (
      All-modify_seat (λ p. p.bet ≡ 0) f (λ p b. let (_, u, _) = same p in u ∙ b) seat h.players
          none_bet,
      All-modify_seat (λ p. p.committed ≡ 0) f (λ p b. let (_, _, u) = same p in u ∙ b) seat
          h.players none_in,
      (res, refl),
    ) in
    record {
      dealt = same_ids (ids-modify_seat f seat h.players own) v.dealt;
      by_phase = subst (λ g. PhaseInv g k) (sym ph) here;
    }

show_one-Good :
    (h : Hand) (p : Player) (first second : Bool)
    → h.phase ≡ result
    → Inv h
    → Good (total_chips h) (show_one h p first second)
unfolding show_one emit
show_one-Good h p first second ph v =
    let (_, _, (res, e)) : PhaseInv result h = subst (λ g. PhaseInv g h) ph v.by_phase in
    let k : Hand = record h {
      players = modify_seat p.seat (show_some first second) h.players;
      seq = h.seq + 1;
    } in
    let w : Inv (record k { results = some res }) =
      shown-Inv h (show_some first second) p.seat (h.seq + 1) res (λ _. (refl, refl, refl))
        (λ _. refl) ph v in
    (
      subst (λ (o : Option Results). Inv (record k { results = o })) (sym e) w,
      sum_by-modify_seat worth (show_some first second) (λ _. refl) p.seat h.players,
    )

show_both-Good :
    (h : Hand) (p : Player) (first second : Bool)
    → h.phase ≡ result
    → Inv h
    → known (id_of p) ≡ true
    → Returns (Good (total_chips h)) (show_both h p first second)
unfolding show_both emit
show_both-Good h p first second ph v a =
    let (_, _, (res, e)) : PhaseInv result h = subst (λ g. PhaseInv g h) ph v.by_phase in
    let (r, f) = reveal-IsOk h.board (board-le h v.dealt) v.dealt.board_valid p a in
    rw (e, show_both, f)
      (
        shown-Inv h (show_whole first second) p.seat (h.seq + 1) _ (λ _. (refl, refl, refl))
            (λ _. refl) ph v,
        sum_by-modify_seat worth (show_whole first second) (λ _. refl) p.seat h.players,
      )

is_result_eq : (f : Phase) → not (is_result f) ≡ false → f ≡ result
is_result_eq showing h = cc
is_result_eq betting h = cc
is_result_eq deal_pending h = cc
is_result_eq result h = refl

-- `ShowCards` on a valid hand never panics: it refuses, or it leaves a valid hand with the same
-- chips.
pub show_cards-Good :
    (h : Hand) (seat : ℕ) (first second : Bool)
    → Inv h
    → Ensures (Good (total_chips h)) (show_cards h seat first second)
unfolding show_cards
show_cards-Good h seat first second v = elim (Option-cases (by_seat h.players seat)) [
  | inl e ↦ rw (e, show_cards) tt
  | inr (p, e) ↦
      let goal : Outcome Error Run → Type 0 = Ensures (Good (total_chips h)) in
      rw (e, show_cards)
        (if_both goal (not (is_result h.phase)) (λ _. tt)
          λ over.
            let ph = is_result_eq h.phase over in
            if_both goal (p.folded || (p.revealed || (not first && not second))) (λ _. tt)
              λ _.
                if_both goal
                  ((first && (p.shown0 && not second)) || (second && (p.shown1 && not first)))
                  (λ _. tt)
                  λ _.
                    if_both goal ((p.shown0 || first) && (p.shown1 || second))
                      (λ _. Ensures-of_Returns (Good (total_chips h)) (show_both h p first second) (
                        show_both-Good h p first second ph v
                          (by_seat-known h.players seat p v.dealt.players_known e)))
                      λ _. show_one-Good h p first second ph v)
]
