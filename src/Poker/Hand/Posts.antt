-- ===== src/Poker/Hand/Posts.antt =====
-- What is posted before the cards: antes, dead blinds, blinds and the straddle.
use showdown.Base.{
  ℕ, ◌+◌, ◌≤◌, ◌≡◌, refl, ap, ◌∙◌, inl, inr, Bool, List, [], ◌∷◌, some, arith, min, if◌then◌else◌,
  length, length-modify, get_elem?, modify, sum_by-modify, sum_by-modify_at, All-modify,
  Option-cases, if_both,
}
use showdown.Poker.Types.{Player, betting, Event}
use showdown.Poker.Hand.State.{Hand, Run, emit, worth, live, count, total_chips}
use showdown.Poker.Hand.Deal.{post, post_antes, owes_dead, post_dead}
use showdown.Poker.Hand.Inv.{Dealt, NoBets, same_ids}
use showdown.Poker.Hand.Ids.{id_of, ids-modify}

-- The deck has `n` cards more than the board needs, and players bet.
abbrev pub RoomFor : ℕ → Hand → Type 0
RoomFor n h = Dealt (record h { deck_pos = h.deck_pos + n }) × (h.phase ≡ betting)

-- What posting leaves alone.
pub record Posted (h k : Hand) : Type 0 where
  pub room_kept : (n : ℕ) → RoomFor n h → RoomFor n k
  pub chips_kept : total_chips k ≡ total_chips h
  pub live_kept : count live k.players ≡ count live h.players
  pub size_kept : length k.players ≡ length h.players
  pub cfg_kept : k.cfg ≡ h.cfg

pub Posted-refl : (h : Hand) → Posted h h
Posted-refl h = record {
  room_kept = λ n r. r;
  chips_kept = refl;
  live_kept = refl;
  size_kept = refl;
  cfg_kept = refl;
}

pub Posted-trans : {h k l : Hand} → Posted h k → Posted k l → Posted h l
Posted-trans p q = record {
  room_kept = λ n r. q.room_kept n (p.room_kept n r);
  chips_kept = q.chips_kept ∙ p.chips_kept;
  live_kept = q.live_kept ∙ p.live_kept;
  size_kept = q.size_kept ∙ p.size_kept;
  cfg_kept = q.cfg_kept ∙ p.cfg_kept;
}

-- One player posts.
pub modify-Posted :
    (h : Hand) (f : Player → Player) (i n : ℕ) (p : Player)
    → get_elem? h.players i ≡ some p
    → worth (f p) ≡ worth p
    → ((q : Player) → live (f q) ≡ live q)
    → ((q : Player) → id_of (f q) ≡ id_of q)
    → Posted h (record h { players = modify i f h.players; seq = n })
modify-Posted h f i n p e w l own = record {
  room_kept = λ n r. (same_ids (ids-modify f i h.players own) r.0, r.1);
  chips_kept = omega (arith, sum_by-modify_at worth f i p h.players e, w);
  live_kept =
      sum_by-modify (λ q. if live q then 1 else 0) f
        (λ q. ap (λ (b : Bool). if b then 1 else 0) (l q)) i h.players;
  size_kept = length-modify f i h.players;
  cfg_kept = refl;
}

-- Posting that bets nothing.
abbrev pub Quiet : Hand → Hand → Type 0
Quiet h k = Posted h k × (NoBets h.players → NoBets k.players)

post-Quiet :
    (h : Hand) (i n amt : ℕ) (p : Player)
    → get_elem? h.players i ≡ some p
    → amt ≤ p.stack
    → Quiet h (record h { players = modify i (post amt) h.players; seq = n })
post-Quiet h i n amt p e le = (
  modify-Posted h (post amt) i n p e (omega (arith, le)) (λ q. refl) λ q. refl,
  All-modify (λ q. q.bet ≡ 0) (post amt) (λ q b. b) i h.players,
)

pub Quiet-trans : {h k l : Hand} → Quiet h k → Quiet k l → Quiet h l
Quiet-trans p q = (Posted-trans p.0 q.0, λ b. q.1 (p.1 b))

pub post_antes-Quiet :
    (ante : ℕ) (is : List ℕ) (h : Hand) (es : List Event) → Quiet h (post_antes ante is (h, es)).0
unfolding post_antes emit
post_antes-Quiet ante [] h es = (Posted-refl h, λ b. b)
post_antes-Quiet ante (i ∷ is) h es = elim (Option-cases (get_elem? h.players i)) [
  | inl e ↦ rw (e, post_antes) (post_antes-Quiet ante is h es)
  | inr (p, e) ↦
      rw (e, post_antes)
        (Quiet-trans (post-Quiet h i (h.seq + 1) (min ante p.stack) p e (omega arith))
          (post_antes-Quiet ante is _ _))
]

pub post_dead-Quiet : (is : List ℕ) (h : Hand) (es : List Event) → Quiet h (post_dead is (h, es)).0
unfolding post_dead emit
post_dead-Quiet [] h es = (Posted-refl h, λ b. b)
post_dead-Quiet (i ∷ is) h es = elim (Option-cases (get_elem? h.players i)) [
  | inl e ↦ rw (e, post_dead) (post_dead-Quiet is h es)
  | inr (p, e) ↦
      rw (e, post_dead)
        (if_both (λ (r : Run). Quiet h (post_dead is r).0) (owes_dead p)
          (λ _.
            Quiet-trans (post-Quiet h i (h.seq + 1) (min p.dead_blind p.stack) p e (omega arith))
              (post_dead-Quiet is _ _))
          λ _. post_dead-Quiet is h es)
]
