-- ===== src/Poker/Hand/Straddles.antt =====
-- Everything that is posted, up to the straddle.
use showdown.Base.{
  ℕ, ◌+◌, ◌≤◌, ◌<◌, ◌≡◌, ◌≢◌, refl, sym, ap, ◌∙◌, ◌⊎◌, inl, inr, true, false, ◌&&◌, List, some,
  arith, ltb, leb, ◌==◌, ◌%◌, min, max, if◌then◌else◌, length, modify, All-modify_at, get_elem?,
  Option-cases, if_both,
}
use mathlib.Core.Path.{subst}
use showdown.Poker.Types.{Player, HandConfig, Event}
use showdown.Poker.Hand.State.{Hand, Run, emit, next, clockwise}
use showdown.Poker.Hand.Deal.{
  post_antes, post_dead, post_blind, post_bet, set_price, is_seat, post_straddle, small_index,
  post_blinds, post_all,
}
use showdown.Poker.Hand.Inv.{NoBets}
use showdown.Poker.Hand.Settles.{Covered}
use showdown.Poker.Hand.Posts.{
  Posted, Posted-refl, Posted-trans, modify-Posted, post_antes-Quiet, post_dead-Quiet, Quiet,
  Quiet-trans,
}
use showdown.Poker.Hand.Blinds.{
  Unbet, next_other, next_next_other, next_in, small_index-lt, post_blinds-Priced,
}

-- A straddle is not below the big blind.
abbrev pub FairStraddle : HandConfig → Type 0
FairStraddle c = (c.straddle_amount ≡ 0) ⊎ (c.big_blind ≤ c.straddle_amount)

set_price-Posted : (amount paid : ℕ) (h : Hand) → Posted h (set_price amount paid h)
set_price-Posted amount paid h =
    if_both (Posted h) (leb amount paid)
      {x = record h {
        current_bet = amount;
        last_full_bet_level = amount;
        last_raise_size = amount;
      }}
      {y = record h { current_bet = max h.current_bet paid }}
      (λ _. record {
        room_kept = λ n r. r;
        chips_kept = refl;
        live_kept = refl;
        size_kept = refl;
        cfg_kept = refl;
      })
      λ _. record {
        room_kept = λ n r. r;
        chips_kept = refl;
        live_kept = refl;
        size_kept = refl;
        cfg_kept = refl;
      }

set_price-Covered :
    (amount paid : ℕ) (h : Hand)
    → paid ≤ amount
    → (leb amount paid ≡ true → Covered amount h.players)
    → (leb amount paid ≡ false → Covered (max h.current_bet paid) h.players)
    → Covered (set_price amount paid h).current_bet (set_price amount paid h).players
set_price-Covered amount paid h le full short =
    if_both (λ (k : Hand). Covered k.current_bet k.players) (leb amount paid)
      {x = record h {
        current_bet = amount;
        last_full_bet_level = amount;
        last_raise_size = amount;
      }}
      {y = record h { current_bet = max h.current_bet paid }} full short

-- The chips are posted, and nobody is above the price.
abbrev pub Opened : Hand → Hand → Type 0
Opened h k = Posted h k × Covered k.current_bet k.players

-- The player left of the big blind posts a straddle.
straddled-Opened :
    (utg n : ℕ) (h : Hand) (p : Player)
    → get_elem? h.players utg ≡ some p
    → p.bet ≡ 0
    → h.current_bet ≤ h.cfg.straddle_amount
    → Covered h.current_bet h.players
    → Opened h (
        set_price h.cfg.straddle_amount (min h.cfg.straddle_amount p.stack) (record h {
          players = modify utg (post_bet (min h.cfg.straddle_amount p.stack)) h.players;
          seq = n;
          straddle_seat = some p.seat;
        }))
straddled-Opened utg n h p e unbet fair c =
    let amount = h.cfg.straddle_amount in
    let f : Player → Player = post_bet (min amount p.stack) in
    let k : Hand = record h {
      players = modify utg f h.players;
      seq = n;
      straddle_seat = some p.seat;
    } in
    let modified : Posted h (record h { players = modify utg f h.players; seq = n }) =
      modify-Posted h f utg n p e (omega arith) (λ q. refl) λ q. refl in
    let kept : Posted h k = record {
      room_kept = λ m r. modified.room_kept m r;
      chips_kept = modified.chips_kept;
      live_kept = modified.live_kept;
      size_kept = modified.size_kept;
      cfg_kept = refl;
    } in
    let below : (y : ℕ) → h.current_bet ≤ y → min amount p.stack ≤ y → Covered y k.players =
      λ y cy py.
        All-modify_at (λ q. q.bet ≤ h.current_bet) (λ q. q.bet ≤ y) f utg p h.players
          (λ q b. omega (arith, b, cy)) (omega (arith, unbet, py)) e c in
    (
      Posted-trans kept (set_price-Posted amount (min amount p.stack) k),
      set_price-Covered amount (min amount p.stack) k (omega arith)
          (λ _. below amount fair (omega arith))
          λ _. below (max h.current_bet (min amount p.stack)) (omega arith) (omega arith),
    )

post_straddle-Opened :
    (utg : ℕ) (h : Hand) (es : List Event)
    → (3 ≤ length h.players → Unbet utg h.players)
    → (0 < h.cfg.straddle_amount → h.current_bet ≤ h.cfg.straddle_amount)
    → Covered h.current_bet h.players
    → Opened h (post_straddle utg (h, es)).0
unfolding post_straddle post_blind emit
post_straddle-Opened utg h es unbet fair c = elim (Option-cases (get_elem? h.players utg)) [
  | inl e ↦ rw (e, post_straddle) (Posted-refl h, c)
  | inr (p, e) ↦
      rw (e, post_straddle, e, post_blind)
        (if_both (λ (r : Run). Opened h r.0)
          (ltb 0 h.cfg.straddle_amount
            && (leb 3 (length h.players) && (is_seat h.cfg.straddle_seat p.seat && ltb 0 p.stack)))
          (λ cond.
            straddled-Opened utg (h.seq + 1) h p e (unbet (ground (arith, cond)) p e)
              (fair (ground (arith, cond))) c)
          λ _. (Posted-refl h, c))
]

-- The antes, when there are some.
antes-Quiet :
    (is : List ℕ) (h : Hand) (es : List Event)
    → Quiet h (if ltb 0 h.cfg.ante then post_antes h.cfg.ante is (h, es) else (h, es)).0
antes-Quiet is h es =
    if_both (λ (r : Run). Quiet h r.0) (ltb 0 h.cfg.ante) (λ _. post_antes-Quiet h.cfg.ante is h es)
      λ _. (Posted-refl h, λ b. b)

-- The third player from the small blind on is neither blind; the number of players counts, not
-- what they have posted.
utg-ne :
    (ps qs : List Player) (button : ℕ)
    → length qs ≡ length ps
    → button < length ps
    → 3 ≤ length ps
    → (small_index qs button ≢ next ps (next ps (small_index ps button)))
      × (next qs (small_index qs button) ≢ next ps (next ps (small_index ps button)))
utg-ne ps qs button size lt three =
    let sb = small_index ps button in
    let same : small_index qs button ≡ sb =
      ap (λ n. if n == 2 then button else (button + 1) % n) size in
    let next_same : next qs (small_index qs button) ≡ next ps sb =
      ap (λ n. (small_index qs button + 1) % n) size ∙ ap (λ i. (i + 1) % length ps) same in
    let sb_in = small_index-lt ps button lt in
    (
      λ e. next_next_other (length ps) sb three sb_in (sym same ∙ e),
      λ e.
          next_other (length ps) (next ps sb) (omega (arith, three)) (next_in (length ps) sb sb_in)
            (sym next_same ∙ e),
    )

-- A fair straddle is not below the big blind that was posted.
straddle_price :
    (c : HandConfig) → FairStraddle c → 0 < c.straddle_amount → c.big_blind ≤ c.straddle_amount
straddle_price c (inl none_set) h = absurd (omega (arith, none_set, h))
straddle_price c (inr fair) h = fair

-- Everything is posted, and nobody is above the price.
pub post_all-Opened :
    (button : ℕ) (h : Hand) (es : List Event)
    → button < length h.players
    → 2 ≤ length h.players
    → h.cfg.small_blind ≤ h.cfg.big_blind
    → FairStraddle h.cfg
    → NoBets h.players
    → Opened h (post_all button (h, es)).0
unfolding post_all
post_all-Opened button h es lt two le fair none_bet =
    let round = clockwise h.players (next h.players button) (length h.players) in
    let r1 : Run = if ltb 0 h.cfg.ante then post_antes h.cfg.ante round (h, es) else (h, es) in
    let r2 : Run = post_dead round r1 in
    let quiet : Quiet h r2.0 =
      Quiet-trans (antes-Quiet round h es) (post_dead-Quiet round r1.0 r1.1) in
    let size : length r2.0.players ≡ length h.players = quiet.0.size_kept in
    let cfg : r2.0.cfg ≡ h.cfg = quiet.0.cfg_kept in
    let blinds =
      post_blinds-Priced button r2.0 r2.1 (omega (arith, lt, size)) (omega (arith, two, size))
        (subst (λ c. c.small_blind ≤ c.big_blind) (sym cfg) le) (quiet.1 none_bet) in
    let r3 : Run = post_blinds button r2 in
    let utg = next h.players (next h.players (small_index h.players button)) in
    let free : 3 ≤ length r3.0.players → Unbet utg r3.0.players = λ three.
      let (a, b) =
        utg-ne h.players r2.0.players button size lt
          (omega (arith, three, size, blinds.posted.size_kept)) in
      blinds.others utg a b in
    let kept : r3.0.cfg ≡ h.cfg = blinds.posted.cfg_kept ∙ cfg in
    let price : 0 < r3.0.cfg.straddle_amount → r3.0.current_bet ≤ r3.0.cfg.straddle_amount =
      λ some_set.
        subst (λ x. x ≤ r3.0.cfg.straddle_amount)
          (ap (λ c. c.big_blind) (kept ∙ sym cfg) ∙ sym blinds.price)
          (straddle_price r3.0.cfg (subst FairStraddle (sym kept) fair) some_set) in
    let opened = post_straddle-Opened utg r3.0 r3.1 free price blinds.covered in
    (Posted-trans quiet.0 (Posted-trans blinds.posted opened.0), opened.1)
