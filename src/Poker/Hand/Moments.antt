-- ===== src/Poker/Hand/Moments.antt =====
-- hand.go: every call leaves a hand in which somebody is to act while players bet, and an action
-- without a raise brings the end of the round nearer.
use showdown.Base.{
  ℕ, zero, suc, ◌+◌, ◌≡◌, inl, inr, refl, Bool, true, false, not, ◌&&◌, ◌||◌, List, [], ◌∷◌, ◌++◌,
  Option, none, some, arith, ltb, get_elem?, length, if◌then◌else◌, if_both, Bool-cases,
  Option-cases, ◌==◌, leb, sort_by,
}
use showdown.Base.Outcome.{Outcome, ok, refused, panic, Whenever, Whenever-bind, Whenever-then}
use showdown.Poker.Card.{Card}
use showdown.Poker.Types.{
  Player, Event, Action, Error, HandConfig, Seat, street_dealt, hand_started, betting, deal_pending,
  showing, result, Phase, Street,
}
use showdown.Poker.Hand.State.{
  Hand, Run, emit, is_betting, is_deal_pending, is_result, is_showing, count, live, by_seat,
  modify_seat, index_from,
}
use showdown.Poker.Hand.Round.{round_complete}
use showdown.Poker.Hand.Moves.{perform}
use showdown.Poker.Hand.Turn.{
  settle, apply, after_move, timeout, time_out, end_street, last_live, is_river, next_street,
  start_showdown,
}
use showdown.Poker.Hand.Calls.{
  forfeit, after_leaving, leave_turn, leave, advance, deal_street, play_on, open_round, reveal_next,
  reveal_at, show_turn, show_or_muck, after_show, draw_cards, street_cards, deal_second, show_both,
  show_one, show_cards, run_it_twice, can_run_it_twice,
}
use showdown.Poker.Hand.Show.{must_show, reveal}
use showdown.Poker.Hand.State.{draw}
use showdown.Poker.Hand.Deal.{
  new_hand, check_start, start_hand, open_hand, seat_players, button_index, shuffled_deck,
  deal_holes, fresh_hand, first_to_act, start_of, post_all,
}
use showdown.Poker.Hand.Asked.{turn_of-cases}
use showdown.Poker.Hand.Turns.{
  Turn, TurnOk, Rests, Settled, Rests-TurnOk, Settled-TurnOk, settle-Settled, finish_last-Rests,
  award_pots-Rests, end_street-Rests, start_showdown-Rests,
}

abbrev pub Leads : Run → Type 0
Leads r = TurnOk r.0

settle-Leads :
    (h : Hand) (es : List Event) (from : ℕ) (inclusive : Bool)
    → Whenever Leads (settle (h, es) from inclusive)
unfolding settle
settle-Leads h es from inclusive = elim (Bool-cases (is_betting h.phase)) [
  | inl b ↦ weaken (settle (h, es) from inclusive) (settle-Settled h es from inclusive b)
  | inr b ↦ rw (b, settle) (Rests-TurnOk (h, es) b)
]
  where
    weaken : (m : Outcome Error Run) → Whenever (Settled h) m → Whenever Leads m
    weaken (ok r) s = Settled-TurnOk h r s
    weaken (refused e) s = tt
    weaken panic s = tt

resting-Leads : (m : Outcome Error Run) → Whenever Rests m → Whenever Leads m
resting-Leads (ok r) s = Rests-TurnOk r s
resting-Leads (refused e) s = tt
resting-Leads panic s = tt

pub apply-Leads : (h : Hand) (seat : ℕ) (a : Action) → Whenever Leads (apply h seat a)
unfolding apply after_move emit
apply-Leads h seat a = elim (Option-cases (by_seat h.players seat)) [
  | inl e ↦ rw (e, apply) tt
  | inr (q, e) ↦ elim (turn_of-cases h seat) [
    | inl t ↦ rw (e, apply, t) tt
    | inr (inl t) ↦ rw (e, apply, t) tt
    | inr (inr (i, p, t)) ↦
        rw (e, apply, t)
          (Whenever-bind Leads (perform h i p a) (λ r. after_move i p r.0 r.1)
            (λ r. settle-Leads _ _ i false))
  ]
]

pub timeout-Leads : (h : Hand) (seat : ℕ) → TurnOk h → Whenever Leads (timeout h seat)
unfolding timeout time_out emit
timeout-Leads h seat v = elim (turn_of-cases h seat) [
  | inl t ↦ rw (t, timeout) tt
  | inr (inl t) ↦ rw (t, timeout) v
  | inr (inr (i, p, t)) ↦ rw (t, timeout) (settle-Leads _ _ i false)
]

-- A change of the player in a seat leaves the player at another index.
modify_seat-other :
    (f : Player → Player) (seat b i : ℕ) (p : Player) (ps : List Player)
    → ((q : Player) → (f q).seat ≡ q.seat)
    → get_elem? ps i ≡ some p
    → ((k : ℕ) → index_from b seat (modify_seat seat f ps) ≡ some k → (b + i == k) ≡ false)
    → get_elem? (modify_seat seat f ps) i ≡ some p
modify_seat-other f seat b i p [] keep e apart = e
modify_seat-other f seat b zero p (q ∷ qs) keep e apart = elim (Bool-cases (q.seat == seat)) [
  | inl s ↦
      let here : (q.seat == seat) ≡ true
          → index_from b seat (modify_seat seat f (q ∷ qs)) ≡ some b =
        λ t. rw (t, keep q, t) refl in
      absurd (ground (arith, apart b (here s)))
  | inr s ↦ rw s e
]
modify_seat-other f seat b (suc i) p (q ∷ qs) keep e apart = elim (Bool-cases (q.seat == seat)) [
  | inl s ↦ rw s e
  | inr s ↦ rw s (
      modify_seat-other f seat (suc b) i p qs keep e
        (λ k at. ground (arith, apart k (rw (s, s) at))))
]

abbrev gone : Hand → ℕ → Hand
gone h seat = record h { players = modify_seat seat leave h.players; seq = h.seq + 1 }

-- A player who leaves out of turn does not take the turn from the one whose it is.
gone-Turn :
    (h : Hand) (seat : ℕ)
    → ((j k : ℕ)
        → h.to_act ≡ some j
        → index_from 0 seat (gone h seat).players ≡ some k
        → (j == k) ≡ false)
    → Turn h
    → Turn (gone h seat)
gone-Turn h seat apart (j, p, acts, at, owes) = (
  j,
  p,
  acts,
  modify_seat-other leave seat 0 j p h.players (λ q. refl) at
      (λ k e. ground (arith, apart j k acts e)),
  owes,
)

same_turn : (i j i1 j1 : ℕ) → (j == i) ≡ false → j1 ≡ j → i1 ≡ i → (j1 == i1) ≡ false
same_turn i j i1 j1 other f e = ground (arith, other, f, e)

leave_turn-Leads :
    (h : Hand) (es : List Event) (seat : ℕ)
    → Turn h
    → Whenever Leads
        (leave_turn (gone h seat, es) (index_from 0 seat (gone h seat).players) h.to_act)
unfolding leave_turn
leave_turn-Leads h es seat v = by_index (index_from 0 seat (gone h seat).players) h.to_act refl refl
  where
    round :
        (apart : Turn (gone h seat))
        → Whenever Leads (
            if round_complete (gone h seat)
            then end_street (gone h seat, es)
            else ok (gone h seat, es))
    round apart =
        if_both (Whenever Leads) (round_complete (gone h seat))
          (λ _. resting-Leads (end_street (gone h seat, es)) (end_street-Rests (gone h seat, es)))
          (λ _ b. apart)

    by_index :
        (o acting : Option ℕ)
        → index_from 0 seat (gone h seat).players ≡ o
        → h.to_act ≡ acting
        → Whenever Leads (leave_turn (gone h seat, es) o acting)
    by_index none none e f = round (gone-Turn h seat (λ j k a x. cc) v)
    by_index none (some j) e f = round (gone-Turn h seat (λ j k a x. cc) v)
    by_index (some i) none e f = round (gone-Turn h seat (λ j k a x. cc) v)
    by_index (some i) (some j) e f =
        if_both (Whenever Leads) (j == i) (λ _. settle-Leads (gone h seat) es i false)
          (λ other.
            round
              (gone-Turn h seat (λ j1 k1 a x. same_turn i j k1 j1 other (cc (a, f)) (cc (x, e))) v))

after_leaving-Leads :
    (h : Hand) (es : List Event) (seat : ℕ)
    → TurnOk h
    → Whenever Leads (after_leaving (gone h seat, es) seat)
unfolding after_leaving
after_leaving-Leads h es seat v =
    if_both (Whenever Leads) (count live (gone h seat).players == 1)
      (λ _. resting-Leads _ (
        finish_last-Rests (record (gone h seat) { phase = betting }, es)
          (last_live (gone h seat).players none)))
      (λ _. elim (Bool-cases (is_betting h.phase)) [
        | inl b ↦ rw b (leave_turn-Leads h es seat (v b))
        | inr b ↦ rw b (Rests-TurnOk (gone h seat, es) b)
      ])

pub forfeit-Leads : (h : Hand) (seat : ℕ) → TurnOk h → Whenever Leads (forfeit h seat)
unfolding forfeit emit
forfeit-Leads h seat v = elim (Option-cases (by_seat h.players seat)) [
  | inl e ↦ rw (e, forfeit) v
  | inr (p, e) ↦
      rw (e, forfeit)
        (if_both (Whenever Leads) (p.folded || (is_result h.phase || is_showing h.phase)) (λ _. v)
          (λ _. after_leaving-Leads h _ seat v))
]

open_round-Leads : (run : Run) → Whenever Leads (open_round run)
unfolding open_round
open_round-Leads (h, es) = settle-Leads _ es _ true

draw_cards-Rests :
    (n : ℕ) (h : Hand)
    → is_betting h.phase ≡ false
    → Whenever (λ d. is_betting d.0.phase ≡ false) (draw_cards n h)
unfolding draw_cards draw
draw_cards-Rests zero h b = b
draw_cards-Rests (suc n) h b = elim (Option-cases (get_elem? h.deck h.deck_pos)) [
  | inl e ↦ rw (e, Whenever, draw_cards, draw) tt
  | inr (c, e) ↦
      rw (e, Whenever, draw_cards, draw)
        (Whenever-then _ _ (draw_cards n (record h { deck_pos = h.deck_pos + 1 })) _
          (draw_cards-Rests n (record h { deck_pos = h.deck_pos + 1 }) b) (λ r k. k))
]

deal_second-Rests : (run : Run) → is_betting run.0.phase ≡ false → Whenever Rests (deal_second run)
unfolding deal_second emit
deal_second-Rests (h, es) b =
    if_both (Whenever Rests) h.run_twice
      (λ _.
        Whenever-then (λ (d : Hand × List Card). is_betting d.0.phase ≡ false) Rests
          (draw_cards (street_cards h.street) h) _ (draw_cards-Rests (street_cards h.street) h b)
          (λ d k. k))
      (λ _. b)

play_on-Leads : (run : Run) → Rests run → Whenever Leads (play_on run)
unfolding play_on
play_on-Leads (h, es) b =
    if_both (Whenever Leads) h.runout
      (λ _.
        if_both (Whenever Leads) (is_river h.street)
          (λ _. resting-Leads (start_showdown (h, es)) (start_showdown-Rests (h, es)))
          (λ _. Rests-TurnOk (h, es) b))
      (λ _. open_round-Leads (h, es))

deal_street-Leads :
    (h : Hand) (s : Street) → is_betting h.phase ≡ false → Whenever Leads (deal_street h s)
unfolding deal_street emit
deal_street-Leads h s b =
    let told : Hand × List Card → Run =
      λ d. emit (record (d.0) { board = d.0.board ++ d.1 }, []) (street_dealt s d.1 0) in
    Whenever-then (λ (d : Hand × List Card). is_betting d.0.phase ≡ false) Leads
      (draw_cards (street_cards s) (record h { street = s })) _
      (draw_cards-Rests (street_cards s) (record h { street = s }) b)
      (λ d k.
        Whenever-then Rests Leads (deal_second (told d)) play_on (deal_second-Rests (told d) k)
          play_on-Leads)

waits-Rests : (f : Phase) → is_deal_pending f ≡ true → is_betting f ≡ false
waits-Rests betting h = cc
waits-Rests deal_pending h = refl
waits-Rests showing h = cc
waits-Rests result h = cc

pub advance-Leads : (h : Hand) → Whenever Leads (advance h)
unfolding advance
advance-Leads h =
    if_both (Whenever Leads) (is_deal_pending h.phase) (λ p. by_street p (next_street h.street))
      (λ _. tt)
  where
    by_street :
        is_deal_pending h.phase ≡ true
        → (o : Option Street) → Whenever Leads (elim o [ none ↦ panic | some s ↦ deal_street h s ])
    by_street p none = tt
    by_street p (some s) = deal_street-Leads h s (waits-Rests h.phase p)

show_turn-Rests : (run : Run) (p : Player) → Rests run → Whenever Rests (show_turn run p)
unfolding show_turn show_or_muck emit
show_turn-Rests (h, es) p b =
    if_both (Whenever Rests) p.revealed (λ _. b)
      (λ _. Whenever-bind Rests (must_show h p) _ (λ d. decided d))
  where
    decided : (d : Bool) → Whenever Rests (show_or_muck (h, es) p d)
    decided true = Whenever-bind Rests (reveal h.board p) _ (λ r. b)
    decided false = b

shows-Rests : (f : Phase) → is_showing f ≡ true → is_betting f ≡ false
shows-Rests betting h = cc
shows-Rests deal_pending h = cc
shows-Rests showing h = refl
shows-Rests result h = cc

reveal_at-Rests :
    (h : Hand) (order : List ℕ) → is_betting h.phase ≡ false → Whenever Rests (reveal_at h order)
unfolding reveal_at after_show
reveal_at-Rests h order b = elim (Option-cases (get_elem? order h.show_idx)) [
  | inl e ↦ rw (e, reveal_at) tt
  | inr (seat, e) ↦ elim (Option-cases (by_seat h.players seat)) [
    | inl f ↦ rw (e, reveal_at, f) tt
    | inr (p, f) ↦
        rw (e, reveal_at, f)
          (Whenever-then Rests Rests (show_turn (record h { show_idx = h.show_idx + 1 }, []) p) _
            (show_turn-Rests (record h { show_idx = h.show_idx + 1 }, []) p b)
            (λ r k.
              if_both (Whenever Rests) (leb (length order) r.0.show_idx) (λ _. award_pots-Rests r)
                (λ _. k)))
  ]
]

pub reveal_next-Leads : (h : Hand) → Whenever Leads (reveal_next h)
unfolding reveal_next
reveal_next-Leads h =
    if_both (Whenever Leads) (is_showing h.phase) (λ p. by_order p h.show_order) (λ _. tt)
  where
    by_order :
        is_showing h.phase ≡ true
        → (o : Option (List ℕ))
        → Whenever Leads (elim o [ none ↦ panic | some order ↦ reveal_at h order ])
    by_order p none = tt
    by_order p (some order) =
        resting-Leads (reveal_at h order) (reveal_at-Rests h order (shows-Rests h.phase p))

open_hand-Leads : (button : ℕ) (h : Hand) → Whenever Leads (open_hand button h)
unfolding open_hand
open_hand-Leads button h =
    let posted : Run = post_all button (emit (h, []) (hand_started (start_of h))) in
    Whenever-bind Leads (deal_holes button posted) _
      (λ run. settle-Leads run.0 run.1 (first_to_act button run.0) true)

start_hand-Leads :
    (cfg : HandConfig) (seats : List Seat) (shuffle : List Card → List Card)
    → Whenever Leads (start_hand cfg seats shuffle)
unfolding start_hand
start_hand-Leads cfg seats shuffle = Whenever-bind Leads (seat_players cfg seats []) _ (λ ps.
    let sorted : List Player = sort_by (λ (p : Player). p.seat) ps in
    Whenever-bind Leads (button_index cfg sorted) _ (λ button.
      Whenever-bind Leads (shuffled_deck cfg (length seats) shuffle) _
        (λ deck. open_hand-Leads button (fresh_hand cfg deck sorted button))))

pub new_hand-Leads :
    (cfg : HandConfig) (seats : List Seat) (shuffle : Option (List Card → List Card))
    → Whenever Leads (new_hand cfg seats shuffle)
unfolding new_hand check_start
new_hand-Leads cfg seats shuffle =
    checked (ltb (length seats) 2) (ltb cfg.small_blind 1 || ltb cfg.big_blind cfg.small_blind)
      shuffle
  where
    checked :
        (few blinds : Bool) (shuffle : Option (List Card → List Card))
        → Whenever Leads (check_start few blinds shuffle cfg seats)
    checked true blinds shuffle = tt
    checked false true shuffle = tt
    checked false false none = tt
    checked false false (some shuffle) = start_hand-Leads cfg seats shuffle

over-Rests : (f : Phase) → not (is_result f) ≡ false → is_betting f ≡ false
over-Rests betting h = cc
over-Rests deal_pending h = cc
over-Rests showing h = cc
over-Rests result h = refl

show_both-Rests :
    (h : Hand) (p : Player) (first second : Bool)
    → is_betting h.phase ≡ false
    → Whenever Rests (show_both h p first second)
unfolding show_both emit
show_both-Rests h p first second b = elim (Option-cases h.results) [
  | inl e ↦ rw (e, Whenever, show_both) tt
  | inr (res, e) ↦ rw (e, Whenever, show_both) (Whenever-bind Rests (reveal h.board p) _ (λ r. b))
]

pub show_cards-Leads :
    (h : Hand) (seat : ℕ) (first second : Bool) → Whenever Leads (show_cards h seat first second)
unfolding show_cards show_one emit
show_cards-Leads h seat first second = elim (Option-cases (by_seat h.players seat)) [
  | inl e ↦ rw (e, Whenever, show_cards) tt
  | inr (p, e) ↦
      rw (e, Whenever, show_cards)
        (if_both (Whenever Leads) (not (is_result h.phase)) (λ _. tt)
          (λ over.
            if_both (Whenever Leads) (p.folded || (p.revealed || (not first && not second)))
              (λ _. tt)
              (λ _.
                if_both (Whenever Leads)
                  ((first && (p.shown0 && not second)) || (second && (p.shown1 && not first)))
                  (λ _. tt)
                  (λ _.
                    if_both (Whenever Leads) ((p.shown0 || first) && (p.shown1 || second))
                      (λ _.
                        resting-Leads (show_both h p first second)
                          (show_both-Rests h p first second (over-Rests h.phase over)))
                      (λ _. Rests-TurnOk (show_one h p first second) (over-Rests h.phase over))))))
]

pub run_it_twice-TurnOk : (h : Hand) → TurnOk h → Whenever TurnOk (run_it_twice h)
unfolding run_it_twice
run_it_twice-TurnOk h v = if_both (Whenever TurnOk) (can_run_it_twice h) (λ _. v) (λ _. tt)
