-- ===== src/Poker/Hand/Reveals.antt =====
-- The staged showdown one hand at a time: `RevealNext` on a valid hand.
use showdown.Base.{
  ℕ, zero, suc, ◌+◌, ◌≤◌, ◌<◌, ◌≡◌, refl, ◌∙◌, sym, ap, inl, inr, Bool, true, false, not, ◌&&◌,
  ◌||◌, List, [], ◌∷◌, some, arith, ◌==◌, leb, if◌then◌else◌, length, get_elem?, Option-cases,
  if_both, leb→lt,
}
use mathlib.Core.Path.{subst}
use showdown.Base.Outcome.{Returns, Returns-bind, Ensures, Ensures-of_Returns}
use showdown.Poker.Card.{Card}
use showdown.Poker.Eval.{HandValue}
use showdown.Poker.Pots.{Pot}
use showdown.Poker.Types.{
  Player, Event, Phase, betting, deal_pending, showing, result, RevealPolicy, reveal_all,
  reveal_winners_only, reveal_in_order,
}
use showdown.Poker.Hand.State.{
  Hand, Run, emit, is_showing, by_seat, modify_seat, worth, live, count, total_chips, pots,
}
use showdown.Poker.Hand.Show.{beaten_in, can_win, must_show, must_show_by, mem}
use showdown.Poker.Hand.Turn.{is_river}
use showdown.Poker.Hand.Calls.{show_or_muck, show_turn, after_show, reveal_at, reveal_next}
use showdown.Poker.Hand.Chips.{
  worths, seated, sum_by-modify_seat, All-modify_seat, any-modify_seat, by_seat-found,
}
use showdown.Poker.Hand.Ids.{ids, id_of, known, by_seat-known, ids-modify_seat}
use showdown.Poker.Card.{valid}
use showdown.Base.{all}
use showdown.Poker.Hand.Inv.{same_ids}
use showdown.Poker.Hand.Shows.{IsOk, evaluate_with-IsOk, reveal-IsOk}
use showdown.Poker.Hand.Inv.{Dealt, NoBets, PhaseInv, Inv, Good, river_size}
use showdown.Poker.Hand.Paying.{Seated}
use showdown.Poker.Hand.Awards.{award_pots-Good}

module _ (ps : List Player) (board : List Card) (low : 3 ≤ length board) (high : length board ≤ 5)
    (cards : all valid board ≡ true) (here : all known (ids ps) ≡ true) where
  beaten_in-IsOk :
      (mine : HandValue) (seat : ℕ) (ss : List ℕ) → IsOk (beaten_in ps board mine seat ss)
  unfolding beaten_in
  beaten_in-IsOk mine seat [] = (false, refl)
  beaten_in-IsOk mine seat (s ∷ ss) =
      let (b, e) = beaten_in-IsOk mine seat ss in
      if_both IsOk (s == seat) (λ _. (b, e))
        λ _. elim (Option-cases (by_seat ps s)) [
          | inl f ↦ rw (f, beaten_in) (b, e)
          | inr (q, f) ↦
              let (v, g) =
                evaluate_with-IsOk board q low high cards (by_seat-known ps s q here f) in
              rw (f, beaten_in)
                (if_both IsOk (q.folded || not q.revealed) (λ _. (b, e)) λ _. rw (g, e) (_, refl))
        ]

  can_win-IsOk :
      (mine : HandValue) (seat : ℕ) (rest : List Pot) → IsOk (can_win ps board mine seat rest)
  unfolding can_win
  can_win-IsOk mine seat [] = (false, refl)
  can_win-IsOk mine seat (pot ∷ rest) =
      let (b, e) = beaten_in-IsOk mine seat pot.eligible in
      rw (e, can_win)
        (if_both IsOk (mem seat pot.eligible && not b) (λ _. (true, refl))
          λ _. can_win-IsOk mine seat rest)

-- Whether a player must show is decided at the river, under every reveal policy.
must_show-IsOk :
    (h : Hand) (p : Player)
    → length h.board ≡ 5
    → all valid h.board ≡ true
    → all known (ids h.players) ≡ true
    → known (id_of p) ≡ true
    → IsOk (must_show h p)
unfolding must_show must_show_by
must_show-IsOk h p size b a own = by_policy h.cfg.reveal
  where
    by_policy : (r : RevealPolicy) → IsOk (must_show_by r h p)
    by_policy reveal_all = (true, refl)
    by_policy reveal_winners_only = (_, refl)
    by_policy reveal_in_order =
        let (v, e) = evaluate_with-IsOk h.board p (omega arith) (omega arith) b own in
        rw (e, must_show_by)
          (can_win-IsOk h.players h.board (omega arith) (omega arith) b a v p.seat (pots h.players))

-- What showing or mucking leaves alone.
record SamePlayers (ps qs : List Player) : Type 0 where
  chips_same : worths qs ≡ worths ps
  bets_same : NoBets ps → NoBets qs
  live_same : count live qs ≡ count live ps
  seats_same : (s : ℕ) → seated qs s ≡ seated ps s
  ids_same : ids qs ≡ ids ps

modify-SamePlayers :
    (f : Player → Player) (seat : ℕ) (ps : List Player)
    → ((p : Player) → worth (f p) ≡ worth p)
    → ((p : Player) → p.bet ≡ 0 → (f p).bet ≡ 0)
    → ((p : Player) → live (f p) ≡ live p)
    → ((p : Player) → (f p).seat ≡ p.seat)
    → ((p : Player) → id_of (f p) ≡ id_of p)
    → SamePlayers ps (modify_seat seat f ps)
modify-SamePlayers f seat ps w b l s own = record {
  chips_same = sum_by-modify_seat worth f w seat ps;
  bets_same = All-modify_seat (λ p. p.bet ≡ 0) f b seat ps;
  live_same =
      sum_by-modify_seat (λ p. if live p then 1 else 0) f
        (λ p. ap (λ (x : Bool). if x then 1 else 0) (l p)) seat ps;
  seats_same = λ t. any-modify_seat (λ p. p.seat == t) f (λ p. ap (λ n. n == t) (s p)) seat ps;
  ids_same = ids-modify_seat f seat ps own;
}

abbrev Turned : Hand → Run → Type 0
Turned h r =
    (ps : List Player) × (n : ℕ) × (r.0 ≡ record h { players = ps; seq = n })
    × SamePlayers h.players ps

show_or_muck-Turned :
    (h : Hand) (es : List Event) (p : Player) (b : Bool)
    → length h.board ≡ 5
    → all valid h.board ≡ true
    → known (id_of p) ≡ true
    → Returns (Turned h) (show_or_muck (h, es) p b)
unfolding show_or_muck emit
show_or_muck-Turned h es p true size v a =
    let (r, e) = reveal-IsOk h.board (omega arith) v p a in
    rw (e, show_or_muck)
      (
        _,
        _,
        refl,
        modify-SamePlayers (λ q. record q { revealed = true }) p.seat h.players (λ _. refl)
            (λ _ k. k) (λ _. refl) (λ _. refl) λ _. refl,
      )
show_or_muck-Turned h es p false size v a = (
  _,
  _,
  refl,
  modify-SamePlayers (λ q. record q { mucked = true }) p.seat h.players (λ _. refl) (λ _ k. k)
      (λ _. refl) (λ _. refl) λ _. refl,
)

show_turn-Turned :
    (h : Hand) (es : List Event) (p : Player)
    → length h.board ≡ 5
    → all valid h.board ≡ true
    → all known (ids h.players) ≡ true
    → known (id_of p) ≡ true
    → Returns (Turned h) (show_turn (h, es) p)
unfolding show_turn
show_turn-Turned h es p size v here a =
    let (b, e) = must_show-IsOk h p size v here a in
    if_both (Returns (Turned h)) p.revealed
      (λ _. (
        h.players,
        h.seq,
        refl,
        record {
          chips_same = refl;
          bets_same = λ k. k;
          live_same = refl;
          seats_same = λ _. refl;
          ids_same = refl;
        },
      ))
      λ _. rw e (show_or_muck-Turned h es p b size v a)

Seated-same : {ps qs : List Player} (ss : List ℕ) → SamePlayers ps qs → Seated ps ss → Seated qs ss
Seated-same [] same h = tt
Seated-same (s ∷ ss) same h = (same.seats_same s ∙ h.0, Seated-same ss same h.1)

-- The shown hand goes on to the next player, or to the awards after the last.
after_show-Good :
    (h : Hand) (es : List Event) (order : List ℕ)
    → h.phase ≡ showing
    → Dealt h
    → NoBets h.players
    → 2 ≤ count live h.players
    → is_river h.street ≡ true
    → h.show_order ≡ some order
    → Seated h.players order
    → Returns (Good (total_chips h)) (after_show order (h, es))
unfolding after_show
after_show-Good h es order ph d n l r o ss =
    if_both (Returns (Good (total_chips h))) (leb (length order) h.show_idx)
      (λ _. award_pots-Good h es d r n (omega arith))
      λ e.
        let more : h.show_idx < length order = leb→lt (length order) h.show_idx e in
        let here : PhaseInv showing h = (n, l, r, (order, o, more, ss)) in
        (record { dealt = d; by_phase = subst (λ f. PhaseInv f h) (sym ph) here }, refl)

get-Seated :
    (ps : List Player) (order : List ℕ) (i : ℕ)
    → i < length order
    → Seated ps order
    → (s : ℕ) × (get_elem? order i ≡ some s) × (seated ps s ≡ true)
get-Seated ps [] i h ss = absurd (omega arith)
get-Seated ps (s ∷ order) zero h ss = (s, refl, ss.0)
get-Seated ps (s ∷ order) (suc i) h ss = get-Seated ps order i (omega arith) ss.1

reveal_at-Good :
    (h : Hand) (order : List ℕ)
    → h.phase ≡ showing
    → Dealt h
    → NoBets h.players
    → 2 ≤ count live h.players
    → is_river h.street ≡ true
    → h.show_order ≡ some order
    → h.show_idx < length order
    → Seated h.players order
    → Returns (Good (total_chips h)) (reveal_at h order)
unfolding reveal_at
reveal_at-Good h order ph d n l r o lt ss =
    let (s, e, here) = get-Seated h.players order h.show_idx lt ss in
    let (p, f) = by_seat-found h.players s here in
    let k : Hand = record h { show_idx = h.show_idx + 1 } in
    let size = river_size h.street r in
    rw (e, reveal_at, f)
      (Returns-bind (Turned k) (Good (total_chips h)) (show_turn (k, []) p) (after_show order)
        (show_turn-Turned k [] p (omega (arith, d.board_full, size)) d.board_valid d.players_known
          (by_seat-known h.players s p d.players_known f))
        go)
  where
    go :
        (a : Run)
        → Turned (record h { show_idx = h.show_idx + 1 }) a
        → Returns (Good (total_chips h)) (after_show order a)
    go (k, es) (ps, m, same, kept) =
        subst (λ k. Returns (Good (total_chips h)) (after_show order (k, es))) (sym same)
          (subst
            (λ c. Returns (Good c) (
              after_show order (record h { show_idx = h.show_idx + 1; players = ps; seq = m }, es)))
            kept.chips_same
            (after_show-Good (record h { show_idx = h.show_idx + 1; players = ps; seq = m }) es
              order ph (same_ids kept.ids_same d) (kept.bets_same n)
              (omega (arith, kept.live_same, l)) r o (Seated-same order kept ss)))

is_showing_eq : (f : Phase) → is_showing f ≡ true → f ≡ showing
is_showing_eq showing h = refl
is_showing_eq betting h = cc
is_showing_eq deal_pending h = cc
is_showing_eq result h = cc

-- `RevealNext` on a valid hand never panics: it is refused, or it leaves a valid hand with the same
-- chips.
pub reveal_next-Good : (h : Hand) → Inv h → Ensures (Good (total_chips h)) (reveal_next h)
unfolding reveal_next
reveal_next-Good h v =
    if_both (Ensures (Good (total_chips h))) (is_showing h.phase)
      (λ b.
        let ph = is_showing_eq h.phase b in
        let (n, l, r, (order, o, lt, ss)) : PhaseInv showing h =
          subst (λ f. PhaseInv f h) ph v.by_phase in
        rw (o, reveal_next)
          (Ensures-of_Returns (Good (total_chips h)) (reveal_at h order)
            (reveal_at-Good h order ph v.dealt n l r o lt ss)))
      λ _. tt
