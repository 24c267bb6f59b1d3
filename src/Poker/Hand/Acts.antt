-- ===== src/Poker/Hand/Acts.antt =====
-- A player's decision: what `perform`, `Apply` and `Timeout` do to a valid hand.
use showdown.Base.Outcome.{ok}
use showdown.Base.{if_both}
use showdown.Base.{
  ℕ, ◌+◌, ◌-◌, ◌≤◌, ◌<◌, ◌≡◌, refl, ◌∙◌, inl, inr, true, false, not, ◌&&◌, ◌||◌, List, some, arith,
  ltb, leb, ◌==◌, min, if◌then◌else◌, length, length-modify, get_elem?, modify, sum_by-modify,
  sum_by-modify_at, All-get, All-modify, All-modify_at, Bool-cases, Option-cases, or_false, ltb→le,
}
use mathlib.Core.Path.{subst}
use showdown.Base.Int.{ℤ, pos, negsuc, pos_part, leb_ℤ}
use showdown.Base.Outcome.{Returns, Ensures, Ensures-bind, Ensures-of_Returns}
use showdown.Poker.Types.{
  Player, Phase, betting, deal_pending, showing, result, Action, ActionKind, fold, check, call, bet,
  raise, all_in, unknown,
}
use showdown.Poker.Hand.State.{Hand, emit, is_betting, worth, live, count, total_chips, by_seat}
use showdown.Poker.Hand.Round.{may_raise}
use showdown.Poker.Hand.Moves.{
  turn_of, max_to, min_raise_to, commit_chips, commit, effective, perform_bet, perform_raise,
  perform_as, perform,
}
use showdown.Poker.Hand.Turn.{note_action, after_move, apply, time_out, timeout}
use showdown.Poker.Hand.Inv.{Dealt, Inv, Good, PhaseInv, same_ids, set_aggressor}
use showdown.Poker.Hand.Ids.{ids, ids-modify, length-ids, in_range}
use showdown.Poker.Hand.Asked.{turn_of-Answer}
use showdown.Poker.Hand.Turn.{is_aggressive}
use showdown.Poker.Hand.Scan.{get-lt}
use showdown.Poker.Hand.Settles.{Covered, settle-Good}

above_of : (a : ℤ) (c : ℕ) → leb_ℤ a (pos c) ≡ false → c ≤ pos_part a
above_of (pos n) c h = ground arith
above_of (negsuc n) c h = ground arith

-- What a decision leaves behind before the hand is settled.
pub record Moved (h k : Hand) : Type 0 where
  pub deal_kept : Dealt h → Dealt k
  pub phase_kept : k.phase ≡ h.phase
  pub chips_kept : total_chips k ≡ total_chips h
  pub covered : Covered k.current_bet k.players
  pub alive : 1 ≤ count live k.players
  pub size_kept : length k.players ≡ length h.players

module _ (h : Hand) (i : ℕ) (p : Player) (at : get_elem? h.players i ≡ some p)
    (cov : Covered h.current_bet h.players) (two : 2 ≤ count live h.players) where
  -- Chips move from the stack to the bet, and the price is at least the new bet.
  commit-Moved :
      (add price level size : ℕ)
      → add ≤ p.stack
      → p.bet + add ≤ price
      → h.current_bet ≤ price
      → Moved h (record (commit h i add) {
        current_bet = price;
        last_full_bet_level = level;
        last_raise_size = size;
      })
  commit-Moved add price level size fits low grows = record {
    deal_kept = λ d. same_ids (ids-modify (commit_chips add) i h.players λ q. refl) d;
    phase_kept = refl;
    chips_kept = omega (arith, sum_by-modify_at worth (commit_chips add) i p h.players at);
    covered =
        All-modify_at (λ q. q.bet ≤ h.current_bet) (λ q. q.bet ≤ price) (commit_chips add) i p
          h.players (λ q k. omega arith) low at cov;
    alive = omega (
      arith,
      sum_by-modify (λ q. if live q then 1 else 0) (commit_chips add) (λ q. refl) i h.players,
    );
    size_kept = length-modify (commit_chips add) i h.players;
  }

  fold-Moved : Moved h (record h { players = modify i (λ q. record q { folded = true }) h.players })
  fold-Moved = record {
    deal_kept =
        λ d. same_ids (ids-modify (λ q. record q { folded = true }) i h.players λ q. refl) d;
    phase_kept = refl;
    chips_kept = sum_by-modify worth (λ q. record q { folded = true }) (λ q. refl) i h.players;
    covered =
        All-modify (λ q. q.bet ≤ h.current_bet) (λ q. record q { folded = true }) (λ q k. k) i
          h.players cov;
    alive = ground (
      arith,
      sum_by-modify_at (λ q. if live q then 1 else 0) (λ q. record q { folded = true }) i p
          h.players at,
    );
    size_kept = length-modify (λ q. record q { folded = true }) i h.players;
  }

  check-Moved : Moved h h
  check-Moved = record {
    deal_kept = λ d. d;
    phase_kept = refl;
    chips_kept = refl;
    covered = cov;
    alive = omega arith;
    size_kept = refl;
  }

  own_bet : p.bet ≤ h.current_bet
  own_bet = All-get (λ q. q.bet ≤ h.current_bet) i p h.players cov at

  abbrev MovedTo : Hand × ActionKind → Type 0
  MovedTo r = Moved h r.0

  call-Moved : (amount : ℤ) → Ensures MovedTo (perform_as h i p call amount)
  unfolding perform_as
  call-Moved amount = elim (Bool-cases (ltb p.bet h.current_bet)) [
    | inl e ↦ rw e (
        commit-Moved (min (h.current_bet - p.bet) p.stack) h.current_bet h.last_full_bet_level
          h.last_raise_size (omega arith) (ground arith) (omega arith))
    | inr e ↦ rw e tt
  ]

  bet-Moved : (amount : ℤ) → Ensures MovedTo (perform_bet h i p amount)
  unfolding perform_bet
  bet-Moved amount = elim (Bool-cases (h.current_bet == 0)) [
    | inr e ↦ rw e tt
    | inl e ↦
        let amt : ℕ = pos_part amount in
        elim (Bool-cases (
          leb_ℤ amount (pos 0)
          || (ltb (max_to p) amt || (ltb amt h.cfg.big_blind && not (amt == max_to p))))) [
            | inl f ↦ rw (e, f) tt
            | inr f ↦
                let none_yet : p.bet ≡ 0 = ground (arith, own_bet) in
                let fits : amt ≤ p.stack = ground (arith, none_yet) in
                elim (Bool-cases (leb h.cfg.big_blind amt)) [
                  | inl g ↦
                      rw (e, f, g) (commit-Moved amt amt amt amt fits (omega arith) (ground arith))
                  | inr g ↦
                      rw (e, f, g)
                        (commit-Moved amt amt h.last_full_bet_level h.last_raise_size fits
                          (omega arith) (ground arith))
                ]
          ]
  ]

  raise-Moved : (amount : ℤ) → Ensures MovedTo (perform_raise h i p amount)
  unfolding perform_raise
  raise-Moved amount =
      let amt : ℕ = pos_part amount in
      elim (Bool-cases (not (may_raise h p) || leb (max_to p) h.current_bet)) [
        | inl e ↦ rw e tt
        | inr e ↦
            elim (Bool-cases (
              leb_ℤ amount (pos h.current_bet)
              || (ltb (max_to p) amt || (ltb amt (min_raise_to h) && not (amt == max_to p))))) [
                | inl f ↦ rw (e, f) tt
                | inr f ↦
                    let (over, rest) = or_false _ _ f in
                    let above : h.current_bet ≤ amt = above_of amount h.current_bet over in
                    let within : amt ≤ max_to p = ltb→le (max_to p) amt (or_false _ _ rest).0 in
                    elim (Bool-cases (leb (min_raise_to h) amt)) [
                      | inl g ↦
                          rw (e, f, g)
                            (commit-Moved (amt - p.bet) amt amt (amt - h.current_bet) (omega arith)
                              (omega (arith, own_bet)) above)
                      | inr g ↦
                          rw (e, f, g)
                            (commit-Moved (amt - p.bet) amt h.last_full_bet_level h.last_raise_size
                              (omega arith) (omega (arith, own_bet)) above)
                    ]
              ]
      ]

  perform_as-Moved :
      (kind : ActionKind) (amount : ℤ) → Ensures MovedTo (perform_as h i p kind amount)
  unfolding perform_as
  perform_as-Moved fold amount = fold-Moved
  perform_as-Moved check amount = elim (Bool-cases (ltb p.bet h.current_bet)) [
    | inl e ↦ rw e tt
    | inr e ↦ rw e check-Moved
  ]
  perform_as-Moved call amount = call-Moved amount
  perform_as-Moved bet amount = bet-Moved amount
  perform_as-Moved raise amount = raise-Moved amount
  perform_as-Moved all_in amount = tt
  perform_as-Moved unknown amount = tt

  pub perform-Moved : (a : Action) → Ensures (λ r. Moved h r.0) (perform h i p a)
  unfolding perform
  perform-Moved a = perform_as-Moved (effective h p a).0 (effective h p a).1

is_betting_eq : (f : Phase) → is_betting f ≡ true → f ≡ betting
is_betting_eq betting h = refl
is_betting_eq deal_pending h = cc
is_betting_eq showing h = cc
is_betting_eq result h = cc

-- A seat whose turn it is is that of the player to act, in a betting round.
pub turn_of_sound :
    (h : Hand) (seat i : ℕ) (p : Player)
    → turn_of h seat ≡ ok (some (i, p))
    → (h.phase ≡ betting) × (get_elem? h.players i ≡ some p) × (h.to_act ≡ some i) × (p.seat ≡ seat)
unfolding turn_of
turn_of_sound h seat i p e = ground arith

-- What is noted of a decision changes no chips.
after_move-Good :
    (h k : Hand) (i : ℕ) (p : Player) (kind : ActionKind)
    → h.phase ≡ betting
    → Dealt h
    → i < length h.players
    → Moved h k
    → Returns (Good (total_chips h)) (after_move i p k kind)
unfolding after_move emit
after_move-Good h k i p kind ph d lt m =
    let note : Player → Player = note_action k.last_full_bet_level kind _ in
    let ps : List Player = modify i note k.players in
    let deal = same_ids (ids-modify note i k.players λ q. refl) (m.deal_kept d) in
    subst (λ c. Returns (Good c) (after_move i p k kind))
      (sum_by-modify worth note (λ q. refl) i k.players ∙ m.chips_kept)
      (settle-Good _ _ i false (m.phase_kept ∙ ph)
        (set_aggressor _
          (if_both (λ o. in_range o (length (ids ps)) ≡ true) (is_aggressive kind)
            (λ _. ground (arith, lt, m.size_kept, length-modify note i k.players, length-ids ps))
            (λ _. deal.aggressor_in))
          deal)
        (All-modify (λ q. q.bet ≤ k.current_bet) note (λ q b. b) i k.players m.covered)
        (omega (
          arith,
          m.alive,
          sum_by-modify (λ q. if live q then 1 else 0) note (λ q. refl) i k.players,
        ))
        (omega (arith, m.size_kept, length-modify note i k.players)))

-- `Apply` on a valid hand never panics: it refuses, or it leaves a valid hand with the same chips.
pub apply-Good :
    (h : Hand) (seat : ℕ) (a : Action) → Inv h → Ensures (Good (total_chips h)) (apply h seat a)
unfolding apply
apply-Good h seat a v = elim (Option-cases (by_seat h.players seat)) [
  | inl e ↦ rw (e, apply) tt
  | inr (q, e) ↦ elim (turn_of-Answer h seat v.dealt) [
    | inl t ↦ rw (e, apply, t) tt
    | inr (i, p, t) ↦
        let (ph, at, _, _) = turn_of_sound h seat i p t in
        let (cov, two) : PhaseInv betting h = subst (λ f. PhaseInv f h) ph v.by_phase in
        rw (e, apply, t)
          (Ensures-bind (λ r. Moved h r.0) (Good (total_chips h)) (perform h i p a)
            (λ r. after_move i p r.0 r.1) (perform-Moved h i p at cov two a)
            λ r m.
              Ensures-of_Returns (Good (total_chips h)) (after_move i p r.0 r.1)
                (after_move-Good h r.0 i p r.1 ph v.dealt (get-lt h.players i p at) m))
  ]
]

-- `Timeout` on a valid hand returns for every seat, without a panic and without a refusal, and
-- leaves a valid hand with the same chips.
pub timeout-Good : (h : Hand) (seat : ℕ) → Inv h → Returns (Good (total_chips h)) (timeout h seat)
unfolding timeout time_out emit
timeout-Good h seat v = elim (turn_of-Answer h seat v.dealt) [
  | inl t ↦ rw (t, timeout) (v, refl)
  | inr (i, p, t) ↦
      let (ph, at, _, _) = turn_of_sound h seat i p t in
      let (cov, two) : PhaseInv betting h = subst (λ f. PhaseInv f h) ph v.by_phase in
      let kind : ActionKind = if p.bet == h.current_bet then check else fold in
      let decide : Player → Player = λ q.
        note_action h.last_full_bet_level kind 0
          (record q { folded = q.folded || not (p.bet == h.current_bet) }) in
      rw (t, timeout)
        (subst (λ c. Returns (Good c) (time_out h i p))
          (sum_by-modify worth decide (λ q. refl) i h.players)
          (settle-Good _ _ i false ph (same_ids (ids-modify decide i h.players λ q. refl) v.dealt)
            (All-modify (λ q. q.bet ≤ h.current_bet) decide (λ q b. b) i h.players cov)
            (ground
              (arith, sum_by-modify_at (λ q. if live q then 1 else 0) decide i p h.players at))
            (omega (arith, get-lt h.players i p at, length-modify decide i h.players))))
]
