-- ===== src/Poker/Hand/Uncalled.antt =====
-- Returning the uncalled bet and collecting the bets move chips and make none.
use showdown.Base.{
  ℕ, suc, ◌+◌, ◌-◌, ◌≤◌, ◌<◌, ◌≡◌, refl, sym, ap, ◌∙◌, inl, inr, List, [], ◌∷◌, Option, none, some,
  arith, ltb, if◌then◌else◌, get_elem?, modify, map, All, Bool-cases, Option-cases, ltb→lt,
  sum_by-modify_at, sum_by-map,
}
use mathlib.Core.Path.{subst}
use showdown.Poker.Types.{Player, Event, uncalled_returned}
use showdown.Poker.Hand.State.{Hand, Run, emit, worth}
use showdown.Poker.Hand.Round.{
  top_bettor, second_bet, first_top, take_back, return_diff, return_from_top, return_uncalled,
  collect_one,
}
use showdown.Poker.Hand.Chips.{worths}

-- What holds of the start and of every player with its index holds of the top bettor.
top_bettor-keeps :
    (P : ℕ × ℕ → Type 0) (ps : List Player) (i : ℕ) (top : ℕ × ℕ)
    → P top
    → ((k : ℕ) (p : Player) → get_elem? ps k ≡ some p → P (i + k, p.bet))
    → P (top_bettor ps i top)
unfolding top_bettor
top_bettor-keeps P [] i (t, b) h k = h
top_bettor-keeps P (p ∷ ps) i (t, b) h k =
    top_bettor-keeps P ps (suc i) (if ltb b p.bet then (i, p.bet) else (t, b)) first later
  where
    here : P (i, p.bet)
    here = subst (λ n. P (n, p.bet)) (omega arith) (k 0 p refl)

    first : P (if ltb b p.bet then (i, p.bet) else (t, b))
    first = elim (Bool-cases (ltb b p.bet)) [ inl e ↦ rw e here | inr e ↦ rw e h ]

    later : (j : ℕ) (q : Player) → get_elem? ps j ≡ some q → P (suc i + j, q.bet)
    later j q e = subst (λ n. P (n, q.bet)) (omega arith) (k (suc j) q e)

-- The top bettor's bet is the one that is returned along with the index.
abbrev IsTop : List Player → ℕ × ℕ → Type 0
IsTop ps r = (p : Player) → get_elem? ps r.0 ≡ some p → r.1 ≡ p.bet

first_top-IsTop : (ps : List Player) → IsTop ps (first_top ps)
unfolding first_top
first_top-IsTop [] = λ p e. cc
first_top-IsTop (p ∷ ps) =
    top_bettor-keeps (IsTop (p ∷ ps)) ps 1 (0, p.bet) (λ q e. cc)
      λ k q e r f.
        let shift : 1 + k ≡ suc k = omega arith in
        let g : get_elem? (p ∷ ps) (suc k) ≡ some r =
          subst (λ n. get_elem? (p ∷ ps) n ≡ some r) shift f in
        ap (λ (o : Option Player). elim o [ none ↦ 0 | some x ↦ x.bet ]) (sym e ∙ g)

-- Either nothing is uncalled, or one player takes back a part of the bet.
pub return_uncalled_cases :
    (P : Run → Type 0) (h : Hand) (es : List Event)
    → P (h, es)
    → ((i diff : ℕ) (p : Player)
        → get_elem? h.players i ≡ some p
        → diff ≤ p.bet
        → 0 < diff
        → P (
            emit
              (record h { players = modify i (take_back diff) h.players }, es)
              (uncalled_returned p.seat diff)))
    → P (return_uncalled (h, es))
unfolding return_uncalled return_from_top return_diff
return_uncalled_cases P h es none_back some_back =
    returned (first_top h.players) (first_top-IsTop h.players)
  where
    returned : (r : ℕ × ℕ) → IsTop h.players r → P (return_from_top (h, es) r.0 r.1)
    returned (top, bet) is_top = elim (Option-cases (get_elem? h.players top)) [
      | inl e ↦ rw (e, return_from_top) none_back
      | inr (p, e) ↦
          let diff = bet - second_bet h.players 0 top 0 in
          rw (e, return_from_top)
            (elim (Bool-cases (ltb 0 diff)) [
              | inl d ↦
                  rw (d, return_diff)
                    (some_back top diff p e (omega (arith, is_top p e)) (ltb→lt 0 diff d))
              | inr d ↦ rw (d, return_diff) none_back
            ])
    ]

pub take_back-worth : (diff : ℕ) (p : Player) → diff ≤ p.bet → worth (take_back diff p) ≡ worth p
take_back-worth diff p h = omega arith

-- Returning the uncalled bet makes and loses no chip.
pub worths-return_uncalled :
    (h : Hand) (es : List Event) → worths (return_uncalled (h, es)).0.players ≡ worths h.players
worths-return_uncalled h es =
    return_uncalled_cases (λ r. worths r.0.players ≡ worths h.players) h es refl
      λ i diff p e le _.
        unfold emit in
        omega (
          arith,
          sum_by-modify_at worth (take_back diff) i p h.players e,
          take_back-worth diff p le,
        )

pub worths-collect : (ps : List Player) → worths (map collect_one ps) ≡ worths ps
worths-collect ps = sum_by-map worth collect_one (λ p. omega arith) ps

pub collect-no_bets : (ps : List Player) → All (λ p. p.bet ≡ 0) (map collect_one ps)
collect-no_bets [] = tt
collect-no_bets (p ∷ ps) = (refl, collect-no_bets ps)
