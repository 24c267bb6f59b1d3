-- ===== src/Poker/Hand/Streets.antt =====
-- Dealing a street: `Advance` and `RunItTwice` on a valid hand.
use showdown.Base.{
  ℕ, zero, suc, ◌+◌, ◌-◌, ◌≤◌, ◌≡◌, refl, sym, ap, true, false, List, [], ◌∷◌, ◌++◌, none, some,
  arith, if◌then◌else◌, length, length-append, map, get_elem?, sum_by-map, All-map_to, if_both,
}
use mathlib.Core.Path.{subst}
use showdown.Base.Outcome.{Outcome, ok, refused, ◌>>=◌, Returns, Ensures, Ensures-of_Returns}
use showdown.Poker.Card.{Card}
use showdown.Poker.Types.{
  Player, Event, Error, wrong_phase, Street, preflop, flop, turn, river, Phase, betting,
  deal_pending, showing, result, street_dealt,
}
use showdown.Poker.Hand.State.{
  Hand, Run, emit, is_deal_pending, worth, live, count, total_chips, draw, index_from,
}
use showdown.Poker.Hand.Show.{left_of_button}
use showdown.Poker.Hand.Turn.{is_river, next_street, settle}
use showdown.Poker.Hand.Calls.{
  can_run_it_twice, run_it_twice, draw_cards, street_cards, deal_second, fresh_round, open_round,
  play_on, deal_street, advance,
}
use showdown.Base.{all, ◌∙◌, sum_by, Bool, false}
use showdown.Poker.Hand.Views.{cut}
use showdown.Poker.Card.{valid}
use showdown.Poker.Hand.Ids.{ids, ids-map, known, in_range, all-get, all-append}
use showdown.Poker.Hand.Inv.{
  get-found, same_ids, set_aggressor, Dealt, NoBets, Inv, Good, PhaseInv, board_size, to_come,
}
use showdown.Poker.Hand.Showdown.{start_showdown-Good, some_players, next_of-lt}
use showdown.Poker.Hand.Settles.{settle-Good}

if_on : {A : Type 0} (b : Bool) (x y : A) → b ≡ true → x ≡ (if b then x else y)
if_on true x y e = refl
if_on false x y e = cc e

cut-none : {A : Type 0} (p : ℕ) (xs : List A) → cut p 0 xs ≡ []
cut-none p [] = refl
cut-none zero (x ∷ xs) = refl
cut-none (suc p) (x ∷ xs) = cut-none p xs

cut-first :
    {A : Type 0} (p n : ℕ) (x : A) (xs : List A)
    → get_elem? xs p ≡ some x
    → cut p (suc n) xs ≡ x ∷ cut (p + 1) n xs
cut-first p n x [] e = cc
cut-first zero n x (y ∷ ys) e = let same : y ≡ x = cc e in ap (λ z. z ∷ cut zero n ys) same
cut-first (suc p) n x (y ∷ ys) e =
    let later : suc p + 1 ≡ suc (p + 1) = omega arith in rw later (cut-first p n x ys e)

-- A deck that has the cards gives the next ones, in order.
draw_cards-IsOk :
    (n : ℕ) (h : Hand)
    → h.deck_pos + n ≤ length h.deck
    → all valid h.deck ≡ true
    → (cs : List Card) × (pos : ℕ) × (draw_cards n h ≡ ok (record h { deck_pos = pos }, cs))
      × (pos ≡ h.deck_pos + n)
      × (length cs ≡ n)
      × (all valid cs ≡ true)
      × (cs ≡ cut h.deck_pos n h.deck)
unfolding draw_cards draw
draw_cards-IsOk zero h le a =
    ([], h.deck_pos, refl, omega arith, refl, refl, sym (cut-none h.deck_pos h.deck))
draw_cards-IsOk (suc n) h le a =
    let (c, e) = get-found h.deck h.deck_pos (omega arith) in
    let (cs, pos, f, at, l, v, next) =
      draw_cards-IsOk n (record h { deck_pos = h.deck_pos + 1 }) (omega arith) a in
    let first : valid c ≡ true = all-get valid h.deck h.deck_pos c a e in
    rw (e, draw, f)
      (
        c ∷ cs,
        pos,
        refl,
        omega (arith, at),
        omega (arith, l),
        rw first v,
        ap (λ (xs : List Card). c ∷ xs) next ∙ sym (cut-first h.deck_pos n c h.deck e),
      )

-- A run that waits for its next street, or is dealt out.
open_round-Good :
    (h : Hand) (es : List Event)
    → Dealt h
    → NoBets h.players
    → 2 ≤ count live h.players
    → Returns (Good (total_chips h)) (open_round (h, es))
unfolding open_round
open_round-Good h es d n l =
    let ps : List Player = map fresh_round h.players in
    let alive : count live ps ≡ count live h.players =
      sum_by-map _ fresh_round (λ p. refl) h.players in
    let same : length ps ≡ length h.players = length-map h.players in
    let k : Hand = record h {
      current_bet = 0;
      last_full_bet_level = 0;
      last_raise_size = h.cfg.big_blind;
      aggressor = none;
      players = ps;
      phase = betting;
    } in
    subst (λ c. Returns (Good c) (settle (k, es) (left_of_button h) true))
      (sum_by-map worth fresh_round (λ p. refl) h.players)
      (settle-Good k es (left_of_button h) true refl
        (set_aggressor none refl (same_ids (ids-map fresh_round h.players λ p. refl) d))
        (All-map_to (λ p. p.bet ≡ 0) (λ p. p.bet ≤ 0) fresh_round (λ p z. omega arith) h.players n)
        (omega (arith, alive))
        (omega (
          arith,
          same,
          next_of-lt h.players (index_from 0 h.cfg.button_seat h.players)
              (some_players h.players (omega arith)),
        )))
  where
    length-map : (ps : List Player) → length (map fresh_round ps) ≡ length ps
    length-map [] = refl
    length-map (p ∷ ps) = ap suc (length-map ps)

play_on-Good :
    (h : Hand) (es : List Event)
    → h.phase ≡ deal_pending
    → Dealt h
    → NoBets h.players
    → 2 ≤ count live h.players
    → Returns (Good (total_chips h)) (play_on (h, es))
unfolding play_on
play_on-Good h es ph d n l =
    if_both (Returns (Good (total_chips h))) h.runout
      (λ _.
        if_both (Returns (Good (total_chips h))) (is_river h.street)
          (λ r. start_showdown-Good h es d r n l)
          λ r.
            (record { dealt = d; by_phase = subst (λ f. PhaseInv f h) (sym ph) (n, l, r) }, refl))
      λ _. open_round-Good h es d n l

abbrev StreetSize : Street → Street → ℕ → Type 0
StreetSize s t n = (board_size t ≡ board_size s + n) × (5 - board_size s ≡ n + (5 - board_size t))

next_street_fits : (s t : Street) → next_street s ≡ some t → StreetSize s t (street_cards t)
next_street_fits preflop flop h = (refl, refl)
next_street_fits flop turn h = (refl, refl)
next_street_fits turn river h = (refl, refl)
next_street_fits _ _ h = ground (arith, h)

-- The cards and the indices of a hand, whatever is on the boards.
abbrev Frame : Hand → Type 0
Frame h =
    (all valid h.board ≡ true)
    × (all valid h.board2 ≡ true)
    × (all valid h.deck ≡ true)
    × (all known (ids h.players) ≡ true)
    × (in_range h.to_act (length (ids h.players)) ≡ true)
    × (in_range h.aggressor (length (ids h.players)) ≡ true)

-- The second board, if there is one, gets as many cards as the first.
abbrev SecondDealt : Hand → Outcome Error Run → Type 0
SecondDealt h m =
    (pos seq : ℕ) × (second : List Card) × (out : List Event) × (m
      ≡ ok (record h { deck_pos = pos; board2 = second; seq = seq }, out))
    × Dealt (record h { deck_pos = pos; board2 = second })
    × (second ≡ (
        if h.run_twice
        then h.board2 ++ cut h.deck_pos (street_cards h.street) h.deck
        else h.board2))

deal_second-IsOk :
    (h : Hand) (es : List Event)
    → length h.board ≡ board_size h.street
    → Frame h
    → (h.run_twice ≡ true → length h.board2 + street_cards h.street ≡ board_size h.street)
    → h.deck_pos + (if h.run_twice then street_cards h.street else 0) + to_come h.street h.run_twice
      ≤ length h.deck
    → SecondDealt h (deal_second (h, es))
unfolding deal_second emit
deal_second-IsOk h es b v b2 enough = if_both (SecondDealt h) h.run_twice twice λ o. (
  h.deck_pos,
  h.seq,
  h.board2,
  es,
  refl,
  record {
    board_full = b;
    board2_full = λ k. absurd (ground (arith, o, k));
    enough = ground (arith, enough, o);
    board_valid = v.0;
    board2_valid = v.1;
    deck_valid = v.2;
    players_known = v.3;
    turn_in = v.4;
    aggressor_in = v.5;
  },
  rw o refl,
)
  where
    twice :
        h.run_twice ≡ true
        → SecondDealt h (
            draw_cards (street_cards h.street) h >>= λ d.
            ok (
              emit (record (d.0) { board2 = d.0.board2 ++ d.1 }, es) (street_dealt h.street d.1 2)))
    twice o =
        let room : h.deck_pos + street_cards h.street ≤ length h.deck = ground (arith, enough, o) in
        let (cs, pos, e, at, l, c, next) = draw_cards-IsOk (street_cards h.street) h room v.2 in
        rw e (
          pos,
          h.seq + 1,
          h.board2 ++ cs,
          _,
          refl,
          record {
            board_full = b;
            board2_full = λ _. omega (arith, b2 o, l, length-append h.board2 cs);
            enough = ground (arith, enough, o, at);
            board_valid = v.0;
            board2_valid = all-append valid h.board2 cs v.1 c;
            deck_valid = v.2;
            players_known = v.3;
            turn_in = v.4;
            aggressor_in = v.5;
          },
          ap (λ (xs : List Card). h.board2 ++ xs) next ∙ if_on h.run_twice _ _ o,
        )

-- The hand `k` is `h` with a street dealt: the next cards of the deck are on the board, the ones
-- behind them on the second board when it is run twice, and nobody's chips or cards changed.
pub record StreetDealt (h k : Hand) : Type 0 where
  pub next : next_street h.street ≡ some k.street
  pub first_board : k.board ≡ h.board ++ cut h.deck_pos (street_cards k.street) h.deck
  pub second_board : k.board2 ≡ (
      if h.run_twice
      then h.board2 ++ cut (h.deck_pos + street_cards k.street) (street_cards k.street) h.deck
      else h.board2)
  pub boards_full : Dealt k
  pub same_players : k.players ≡ h.players
  pub same_phase : k.phase ≡ h.phase

deal_street-StreetDealt :
    (h : Hand) (s : Street)
    → next_street h.street ≡ some s
    → Dealt h
    → (k : Hand) × (es : List Event) × (deal_street h s ≡ play_on (k, es)) × StreetDealt h k
unfolding deal_street
deal_street-StreetDealt h s next d =
    let (grows, left) = next_street_fits h.street s next in
    let room : h.deck_pos + street_cards s ≤ length h.deck = ground (arith, d.enough, left) in
    let (cs, pos, e, at, len, c, cards) =
      draw_cards-IsOk (street_cards s) (record h { street = s }) room d.deck_valid in
    let told : List Event = record { seq = h.seq + 1; body = street_dealt s cs 0 } ∷ [] in
    let k : Hand = record h {
      street = s;
      deck_pos = pos;
      board = h.board ++ cs;
      seq = h.seq + 1;
    } in
    let (pos2, seq2, second, out, f, deal, more) =
      deal_second-IsOk k told (omega (arith, d.board_full, len, grows, length-append h.board cs))
        (
          all-append valid h.board cs d.board_valid c,
          d.board2_valid,
          d.deck_valid,
          d.players_known,
          d.turn_in,
          d.aggressor_in,
        )
        (λ o. omega (arith, d.board2_full o, grows)) (ground (arith, d.enough, left, at)) in
    rw (e, emit, f)
      (
        record k { deck_pos = pos2; board2 = second; seq = seq2 },
        out,
        refl,
        record {
          next = next;
          first_board = ap (λ xs. h.board ++ xs) cards;
          second_board =
              subst
                (λ x.
                  second
                  ≡ (if h.run_twice then h.board2 ++ cut x (street_cards s) h.deck else h.board2))
                at more;
          boards_full = deal;
          same_players = refl;
          same_phase = refl;
        },
      )

is_deal_pending_eq : (f : Phase) → is_deal_pending f ≡ true → f ≡ deal_pending
is_deal_pending_eq deal_pending h = refl
is_deal_pending_eq betting h = cc
is_deal_pending_eq showing h = cc
is_deal_pending_eq result h = cc

next_street-found : (s : Street) → is_river s ≡ false → (t : Street) × (next_street s ≡ some t)
next_street-found preflop h = (flop, refl)
next_street-found flop h = (turn, refl)
next_street-found turn h = (river, refl)
next_street-found river h = cc

deal_street-Good :
    (h k : Hand) (s : Street) (es : List Event)
    → h.phase ≡ deal_pending
    → NoBets h.players
    → 2 ≤ count live h.players
    → deal_street h s ≡ play_on (k, es)
    → StreetDealt h k
    → Returns (Good (total_chips h)) (deal_street h s)
deal_street-Good h k s es ph n l e dealt =
    let same = sym dealt.same_players in
    subst (λ m. Returns (Good (total_chips h)) m) (sym e)
      (subst (λ ps. Returns (Good (sum_by worth ps)) (play_on (k, es))) dealt.same_players
        (play_on-Good k es (dealt.same_phase ∙ ph) dealt.boards_full
          (subst (λ ps. NoBets ps) same n) (subst (λ ps. 2 ≤ count live ps) same l)))

-- `Advance` on a valid hand never panics: it is refused, or it leaves a valid hand with the same
-- chips.
pub advance-Good : (h : Hand) → Inv h → Ensures (Good (total_chips h)) (advance h)
unfolding advance
advance-Good h v =
    if_both (Ensures (Good (total_chips h))) (is_deal_pending h.phase)
      (λ b.
        let ph = is_deal_pending_eq h.phase b in
        let (n, l, r) : PhaseInv deal_pending h = subst (λ f. PhaseInv f h) ph v.by_phase in
        let (s, e) = next_street-found h.street r in
        let (k, es, f, dealt) = deal_street-StreetDealt h s e v.dealt in
        rw (e, advance)
          (Ensures-of_Returns (Good (total_chips h)) (deal_street h s)
            (deal_street-Good h k s es ph n l f dealt)))
      λ _. tt

advance_deals :
    (h : Hand) (s : Street)
    → h.phase ≡ deal_pending
    → next_street h.street ≡ some s
    → advance h ≡ deal_street h s
unfolding advance
advance_deals h s ph e =
    rw (e, advance)
      (sym (
        if_on (is_deal_pending h.phase) (deal_street h s) (refused wrong_phase)
          (ap is_deal_pending ph)))

-- `Advance` on a valid hand that waits for a street deals it: the next cards of the deck come on the
-- board, when it is run twice as many of the following ones come on the second board, the boards
-- have the cards of the new street, and the hand goes on from there with the same players; the call
-- returns a valid hand with the same chips.
pub advance-StreetDealt :
    (h : Hand)
    → Inv h
    → h.phase ≡ deal_pending
    → (k : Hand) × (es : List Event) × (advance h ≡ play_on (k, es))
      × StreetDealt h k
      × Returns (Good (total_chips h)) (advance h)
advance-StreetDealt h v ph =
    let (n, l, r) : PhaseInv deal_pending h = subst (λ f. PhaseInv f h) ph v.by_phase in
    let (s, e) = next_street-found h.street r in
    let (k, es, f, dealt) = deal_street-StreetDealt h s e v.dealt in
    let deals : advance h ≡ deal_street h s = advance_deals h s ph e in
    (
      k,
      es,
      deals ∙ f,
      dealt,
      subst (λ m. Returns (Good (total_chips h)) m) (sym deals)
          (deal_street-Good h k s es ph n l f dealt),
    )

-- `RunItTwice` on a valid hand never panics: it is refused, or it leaves a valid hand with the same
-- chips; a valid hand has the cards for both of its boards.
pub run_it_twice-Good :
    (h : Hand) → Inv h → Ensures (λ k. Inv k × (total_chips k ≡ total_chips h)) (run_it_twice h)
unfolding run_it_twice can_run_it_twice
run_it_twice-Good h v =
    if_both (Ensures {E = Error} (λ k. Inv k × (total_chips k ≡ total_chips h)))
      (can_run_it_twice h) {x = ok (record h { run_twice = true; board2 = h.board })}
      {y = refused wrong_phase}
      (λ c.
        let k : Hand = record h { run_twice = true; board2 = h.board } in
        let ph : h.phase ≡ deal_pending = is_deal_pending_eq h.phase (ground (arith, c)) in
        let held : PhaseInv deal_pending h = subst (λ f. PhaseInv f h) ph v.by_phase in
        let kept : PhaseInv deal_pending k = held in
        let good : Inv k = record {
          dealt = record {
            board_full = v.dealt.board_full;
            board2_full = λ _. v.dealt.board_full;
            enough = ground (arith, c, v.dealt.board_full);
            board_valid = v.dealt.board_valid;
            board2_valid = v.dealt.board_valid;
            deck_valid = v.dealt.deck_valid;
            players_known = v.dealt.players_known;
            turn_in = v.dealt.turn_in;
            aggressor_in = v.dealt.aggressor_in;
          };
          by_phase = subst (λ f. PhaseInv f k) (sym ph) kept;
        } in
        (good, refl))
      λ _. tt
