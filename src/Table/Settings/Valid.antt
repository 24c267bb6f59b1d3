-- ===== src/Table/Settings/Valid.antt =====
-- settings.go: what `Settings.Validate` accepts, without its loops over fields.
use showdown.Base.{
  ℕ, ◌≤◌, ◌≡◌, ◌↔◌, ◌⊎◌, refl, inl, inr, sym, Bool, true, false, not, ◌&&◌, ◌||◌, List, [], ◌∷◌,
  arith, Bool-cases, or_false,
}
use mathlib.Core.Path.{subst}
use showdown.Base.Int.{ℤ, pos, negsuc, ltb_ℤ, Within, Within-range, pos_part}
use showdown.Base.Text.{Text, eq_text, eq_text_sound, eq_text_refl, one_of}
use showdown.Table.Settings.{Settings, variant_royal, royal_max_players}
use showdown.Table.Settings.Validate.{
  outside, join_policies, reveal_policies, variants, bad_max_players,
}

abbrev pub Listed : Text → List Text → Type 0
Listed s [] = ⊥
Listed s (t ∷ ts) = (s ≡ t) ⊎ Listed s ts

abbrev pub AtLeast : ℕ → ℤ → Type 0
AtLeast lo x = (n : ℕ) × (x ≡ pos n) × (lo ≤ n)

-- The constraints on settings for a table with so many players.
pub record IsValid (s : Settings) (seated : ℕ) : Type 0 where
  pub max_players : Within 2 s.max_players 10
  pub room : AtLeast seated s.max_players
  pub royal_room : s.variant ≡ variant_royal → pos_part s.max_players ≤ royal_max_players
  pub variant : Listed s.variant variants
  pub start_money : Within 1 s.start_money 1_000_000_000_000
  pub small_blind : AtLeast 1 s.small_blind
  pub big_blind : AtLeast (pos_part s.small_blind) s.big_blind
  pub ante : AtLeast 0 s.ante
  pub turn_time : Within 5 s.turn_time 600
  pub disconnected_turn_time : Within 3 s.disconnected_turn_time (pos_part s.turn_time)
  pub sit_out_after_missed_turns : Within 1 s.sit_out_after_missed_turns 10
  pub join_policy : Listed s.join_policy join_policies
  pub showdown_reveal : Listed s.showdown_reveal reveal_policies
  pub hand_delay_ms : Within 2000 s.hand_delay_ms 15000
  pub blinds_up_minutes : Within 0 s.blinds_up_minutes 600
  pub blinds_up_percent : Within 10 s.blinds_up_percent 400
  pub time_bank_seconds : Within 0 s.time_bank_seconds 120
  pub time_bank_refill_seconds : Within 0 s.time_bank_refill_seconds 30

pub outside-Within : (lo hi : ℕ) (x : ℤ) → outside lo x hi ≡ false → Within lo x hi
outside-Within lo hi x h =
    let (low, high) = or_false (ltb_ℤ x (pos lo)) (ltb_ℤ (pos hi) x) h in
    Within-range lo hi x low high

pub Within-inside : (lo hi : ℕ) (x : ℤ) → Within lo x hi → outside lo x hi ≡ false
Within-inside lo hi x (n, e, low, high) = rw e (ground (arith, low, high))

pub not_below-AtLeast : (lo : ℕ) (x : ℤ) → ltb_ℤ x (pos lo) ≡ false → AtLeast lo x
not_below-AtLeast lo (pos n) h = (n, refl, ground (arith, h))
not_below-AtLeast lo (negsuc n) h = absurd (ground (arith, h))

pub AtLeast-not_below : (lo : ℕ) (x : ℤ) → AtLeast lo x → ltb_ℤ x (pos lo) ≡ false
AtLeast-not_below lo x (n, e, low) = rw e (ground (arith, low))

pub one_of-Listed : (s : Text) (ts : List Text) → not (one_of s ts) ≡ false → Listed s ts
one_of-Listed s [] h = cc
one_of-Listed s (t ∷ ts) h = elim (Bool-cases (eq_text s t)) [
  | inl e ↦ inl (eq_text_sound s t e)
  | inr e ↦ inr (one_of-Listed s ts (rw e at h))
]

pub Listed-one_of : (s : Text) (ts : List Text) → Listed s ts → not (one_of s ts) ≡ false
Listed-one_of s [] h = absurd h
Listed-one_of s (t ∷ ts) (inl e) = rw (← e) (rw (eq_text_refl s) refl)
Listed-one_of s (t ∷ ts) (inr h) = ground (arith, Listed-one_of s ts h)

royal_fits :
    (b : Bool) (x : ℤ)
    → (b && ltb_ℤ (pos royal_max_players) x) ≡ false
    → b ≡ true
    → pos_part x ≤ royal_max_players
royal_fits b (pos n) h e = ground (arith, h, e)
royal_fits b (negsuc n) h e = ground (arith, h, e)

fits_royal : (x : ℤ) → pos_part x ≤ royal_max_players → ltb_ℤ (pos royal_max_players) x ≡ false
fits_royal (pos n) h = ground (arith, h)
fits_royal (negsuc n) h = ground (arith, h)

both_false : (a b : Bool) → a ≡ false → b ≡ false → (a || b) ≡ false
both_false a b h k = rw (h, k) refl

-- The number of players, with the players at the table and the royal deck.
pub max_players_iff :
    (s : Settings) (seated : ℕ)
    → (bad_max_players s seated ≡ false) ↔ (
        Within 2 s.max_players 10
        × AtLeast seated s.max_players
        × (s.variant ≡ variant_royal → pos_part s.max_players ≤ royal_max_players))
max_players_iff s seated = (forth, back)
  where
    forth :
        bad_max_players s seated ≡ false
        → Within 2 s.max_players 10
          × AtLeast seated s.max_players
          × (s.variant ≡ variant_royal → pos_part s.max_players ≤ royal_max_players)
    forth h =
        let (range, rest) = or_false (outside 2 s.max_players 10) _ h in
        let (room, royal) = or_false (ltb_ℤ s.max_players (pos seated)) _ rest in
        (
          outside-Within 2 10 s.max_players range,
          not_below-AtLeast seated s.max_players room,
          λ e.
              royal_fits (eq_text s.variant variant_royal) s.max_players royal
                (subst (λ v. eq_text v variant_royal ≡ true) (sym e) (eq_text_refl variant_royal)),
        )

    back :
        (Within 2 s.max_players 10
          × AtLeast seated s.max_players
          × (s.variant ≡ variant_royal → pos_part s.max_players ≤ royal_max_players))
        → bad_max_players s seated ≡ false
    back (range, room, royal) = both_false _ _ (Within-inside 2 10 s.max_players range) (
        both_false _ _ (AtLeast-not_below seated s.max_players room)
          (elim (Bool-cases (eq_text s.variant variant_royal)) [
            | inl e ↦
                rw e (fits_royal s.max_players (royal (eq_text_sound s.variant variant_royal e)))
            | inr e ↦ rw e refl
          ]))

-- A blind that is not below another one.
pub not_below-blind : (x y : ℤ) → AtLeast 1 x → ltb_ℤ y x ≡ false → AtLeast (pos_part x) y
not_below-blind x (pos m) (n, e, low) h = (m, refl, blind (rw e at h))
  where
    blind : ltb_ℤ (pos m) (pos n) ≡ false → pos_part x ≤ m
    blind k = rw e (ground (arith, k))
not_below-blind x (negsuc m) (n, e, low) h = absurd (no (rw e at h))
  where
    no : ltb_ℤ (negsuc m) (pos n) ≡ false → ⊥
    no k = ground (arith, k)

pub blind-not_below : (x y : ℤ) → AtLeast 1 x → AtLeast (pos_part x) y → ltb_ℤ y x ≡ false
blind-not_below x y (n, e, low) (m, f, high) = both (rw e at high)
  where
    both : n ≤ m → ltb_ℤ y x ≡ false
    both h = rw (e, f) (ground (arith, h))

pub disconnected-Within :
    (d t : ℤ) → Within 5 t 600 → (ltb_ℤ d (pos 3) || ltb_ℤ t d) ≡ false → Within 3 d (pos_part t)
disconnected-Within (pos m) t (n, e, low, high) h =
    let k : (ltb_ℤ (pos m) (pos 3) || ltb_ℤ (pos n) (pos m)) ≡ false = rw e at h in
    (m, refl, ground (arith, k), rw e (ground (arith, k)))
disconnected-Within (negsuc m) t w h = absurd (ground (arith, h))

pub Within-disconnected :
    (d t : ℤ) → Within 5 t 600 → Within 3 d (pos_part t) → (ltb_ℤ d (pos 3) || ltb_ℤ t d) ≡ false
Within-disconnected d t (n, e, low, high) (m, f, from, to) = both (rw e at to)
  where
    both : m ≤ n → (ltb_ℤ d (pos 3) || ltb_ℤ t d) ≡ false
    both h = rw (e, f) (ground (arith, h, from))
