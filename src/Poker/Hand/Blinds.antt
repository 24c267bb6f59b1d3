-- ===== src/Poker/Hand/Blinds.antt =====
-- The blinds and the straddle: nobody is above the price that they set.
use showdown.Base.{
  ℕ, zero, suc, ◌+◌, ◌%◌, ◌≤◌, ◌<◌, ◌≡◌, ◌≢◌, refl, sym, ap, ◌∙◌, ◌⊎◌, inl, inr, List, [], ◌∷◌,
  some, arith, ltb, ◌==◌, min, length, get_elem?, modify, All-get, All-map, All-modify_at,
  Bool-cases, Option-cases, if_both, ltb→lt,
}
use mathlib.Core.Path.{subst}
use native.Mathlib.Nat.{mod-eq_of_lt, mod_self}
use showdown.Poker.Types.{Player, BlindKind, small, big, Event}
use showdown.Poker.Hand.State.{Hand, emit, next}
use showdown.Poker.Hand.Deal.{post_bet, post_blind, small_index, set_blind_price, post_blinds}
use showdown.Poker.Hand.Inv.{NoBets}
use showdown.Poker.Hand.Settles.{Covered}
use showdown.Poker.Hand.Posts.{Posted, Posted-refl, Posted-trans, modify-Posted}

-- The player at an index has bet nothing.
abbrev pub Unbet : ℕ → List Player → Type 0
Unbet i ps = (p : Player) → get_elem? ps i ≡ some p → p.bet ≡ 0

NoBets-Unbet : (ps : List Player) (i : ℕ) → NoBets ps → Unbet i ps
NoBets-Unbet ps i b p e = All-get (λ q. q.bet ≡ 0) i p ps b e

get-modify_other :
    (f : Player → Player) (i j : ℕ) (ps : List Player)
    → i ≢ j
    → get_elem? (modify i f ps) j ≡ get_elem? ps j
get-modify_other f i j [] ne = refl
get-modify_other f zero zero (p ∷ ps) ne = absurd (ne refl)
get-modify_other f zero (suc j) (p ∷ ps) ne = refl
get-modify_other f (suc i) zero (p ∷ ps) ne = refl
get-modify_other f (suc i) (suc j) (p ∷ ps) ne = get-modify_other f i j ps λ e. ne (ap suc e)

-- One blind, by a player who has bet nothing yet.
pub record BlindPosted (i x y : ℕ) (h k : Hand) : Type 0 where
  pub posted : Posted h k
  pub covered : Unbet i h.players → Covered x h.players → Covered y k.players
  pub others : (j : ℕ) → i ≢ j → Unbet j h.players → Unbet j k.players

pub post_blind-BlindPosted :
    (i amount x y : ℕ) (kind : BlindKind) (h : Hand) (es : List Event)
    → x ≤ y
    → amount ≤ y
    → BlindPosted i x y h (post_blind i amount kind (h, es)).0
unfolding post_blind emit
post_blind-BlindPosted i amount x y kind h es xy ay = elim (Option-cases (get_elem? h.players i)) [
  | inl e ↦
      rw (e, post_blind)
        (record {
          posted = Posted-refl h;
          covered = λ _ c.
              All-map (λ p. p.bet ≤ x) (λ p. p.bet ≤ y) h.players (λ p k. omega (arith, k, xy)) c;
          others = λ j ne u. u;
        })
  | inr (p, e) ↦
      let f : Player → Player = post_bet (min amount p.stack) in
      rw (e, post_blind)
        (record {
          posted = modify-Posted h f i (h.seq + 1) p e (omega arith) (λ q. refl) λ q. refl;
          covered = λ u c.
              All-modify_at (λ q. q.bet ≤ x) (λ q. q.bet ≤ y) f i p h.players
                (λ q k. omega (arith, k, xy)) (omega (arith, u p e, ay)) e c;
          others = λ j ne u q g. u q (sym (get-modify_other f i j h.players ne) ∙ g);
        })
]

-- The successor round the table.
next_cases :
    (n i : ℕ) → i < n → (((i + 1) % n ≡ i + 1) × (i + 1 < n)) ⊎ (((i + 1) % n ≡ 0) × (i + 1 ≡ n))
next_cases n i h = elim (Bool-cases (ltb (i + 1) n)) [
  | inl e ↦ inl (mod-eq_of_lt (ltb→lt (i + 1) n e), ltb→lt (i + 1) n e)
  | inr e ↦ let w : i + 1 ≡ n = ground arith in inr (rw w (mod_self n), w)
]

pub next_other : (n i : ℕ) → 2 ≤ n → i < n → i ≢ (i + 1) % n
next_other n i two h e = elim (next_cases n i h) [
  | inl (s, _) ↦ absurd (omega (arith, s, e))
  | inr (s, w) ↦ absurd (omega (arith, s, e, w))
]

pub next_in : (n i : ℕ) → i < n → (i + 1) % n < n
next_in n i h = elim (next_cases n i h) [
  | inl (s, w) ↦ omega (arith, s, w)
  | inr (s, w) ↦ omega (arith, s, w)
]

pub next_next_other : (n i : ℕ) → 3 ≤ n → i < n → i ≢ ((i + 1) % n + 1) % n
next_next_other n i three h e = elim (next_cases n i h) [
  | inl (s, w) ↦ elim (next_cases n ((i + 1) % n) (next_in n i h)) [
    | inl (t, _) ↦ absurd (omega (arith, s, t, e))
    | inr (t, v) ↦ absurd (omega (arith, s, t, v, e))
  ]
  | inr (s, w) ↦ elim (next_cases n ((i + 1) % n) (next_in n i h)) [
    | inl (t, _) ↦ absurd (omega (arith, s, t, w, e))
    | inr (t, v) ↦ absurd (omega (arith, s, t, v, w, e))
  ]
]

pub small_index-lt :
    (ps : List Player) (button : ℕ) → button < length ps → small_index ps button < length ps
small_index-lt ps button h =
    if_both (λ i. i < length ps) (length ps == 2) {x = button} {y = next ps button} (λ _. h)
      λ _. next_in (length ps) button h

-- After the blinds: nobody is above the big blind, and only two players have bet.
pub record Priced (sb bb : ℕ) (h k : Hand) : Type 0 where
  pub posted : Posted h k
  pub covered : Covered k.current_bet k.players
  pub price : k.current_bet ≡ h.cfg.big_blind
  pub others : (j : ℕ) → sb ≢ j → bb ≢ j → Unbet j k.players

set_blind_price-Posted : (h : Hand) → Posted h (set_blind_price h)
set_blind_price-Posted h = record {
  room_kept = λ n r. r;
  chips_kept = refl;
  live_kept = refl;
  size_kept = refl;
  cfg_kept = refl;
}

pub post_blinds-Priced :
    (button : ℕ) (h : Hand) (es : List Event)
    → button < length h.players
    → 2 ≤ length h.players
    → h.cfg.small_blind ≤ h.cfg.big_blind
    → NoBets h.players
    → Priced
        (small_index h.players button)
        (next h.players (small_index h.players button))
        h
        (post_blinds button (h, es)).0
unfolding post_blinds
post_blinds-Priced button h es lt two le none_bet =
    let sb = small_index h.players button in
    let bb = next h.players sb in
    let ne : sb ≢ bb = next_other (length h.players) sb two (small_index-lt h.players button lt) in
    let one = post_blind sb h.cfg.small_blind small (h, es) in
    let first =
      post_blind-BlindPosted sb h.cfg.small_blind 0 h.cfg.big_blind small h es (omega arith) le in
    let second =
      post_blind-BlindPosted bb h.cfg.big_blind h.cfg.big_blind h.cfg.big_blind big one.0 one.1
        (omega arith) (omega arith) in
    let two_blinds = post_blind bb h.cfg.big_blind big one in
    let kept = Posted-trans first.posted second.posted in
    let covered_one : Covered h.cfg.big_blind one.0.players =
      first.covered (NoBets-Unbet h.players sb none_bet)
        (All-map (λ p. p.bet ≡ 0) (λ p. p.bet ≤ 0) h.players (λ p e. omega (arith, e)) none_bet) in
    let covered_two : Covered h.cfg.big_blind two_blinds.0.players =
      second.covered (first.others bb ne (NoBets-Unbet h.players bb none_bet)) covered_one in
    let same : h.cfg.big_blind ≡ two_blinds.0.cfg.big_blind =
      ap (λ c. c.big_blind) (sym kept.cfg_kept) in
    record {
      posted = Posted-trans kept (set_blind_price-Posted two_blinds.0);
      covered = subst (λ x. Covered x two_blinds.0.players) same covered_two;
      price = sym same;
      others = λ j a b. second.others j b (first.others j a (NoBets-Unbet h.players j none_bet));
    }
