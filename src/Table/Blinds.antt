-- ===== src/Table/Blinds.antt =====
-- table.go: the blind schedule, and how it stops with the table.
use showdown.Base.{
  not, ◌⊎◌, ℕ, ◌+◌, ◌-◌, ◌*◌, ◌/◌, ◌%◌, ◌<◌, ◌≤◌, ◌≡◌, refl, inl, inr, true, false, Bool-cases,
  arith, ltb,
}
use native.Mathlib.Nat.{mul-le-mul, mul-le-mul_left, mul-le-mul_right}
use showdown.Base.Int.{pos, pos_part, Within, add_ℤ, mul_ℤ, wrap_int64, ltb_ℤ}
use showdown.Table.Settings.{Settings}
use showdown.Table.Settings.Valid.{IsValid, AtLeast}
use showdown.Table.Types.{Table, Deps, audited, paused, running, table_paused, table_resumed}
use showdown.Table.Seats.{note}
use mathlib.Core.Path.{subst}
use showdown.Table.Clock.{set_state, up, raised, is_running}
use showdown.Table.Host.{stop_clock, resume_clock, pause, resume}
use showdown.Table.Deal.{maybe_start_hand}
use showdown.Base.{if_both, ◌&&◌}
use showdown.Base.Outcome.{ok}

-- The amount of chips up to which a step of the schedule does not overflow an int64.
abbrev pub bound : ℕ
bound = 10_000_000_000_000_000

abbrev next_level : ℕ → ℕ → ℕ
next_level p n = (n * (100 + p) + 99) / 100

product_le : (n p : ℕ) → n ≤ bound → p ≤ 400 → n * (100 + p) ≤ bound * 500
product_le n p a b = mul-le-mul {m₂ = 500} a (omega (arith, b))

product_ge : (n p : ℕ) → 10 ≤ p → n * 110 ≤ n * (100 + p)
product_ge n p a = mul-le-mul_left n (omega (arith, a))

product_mono : (m n p : ℕ) → m ≤ n → m * (100 + p) ≤ n * (100 + p)
product_mono m n p a = mul-le-mul_right (100 + p) a

wrap-small : (n : ℕ) → n < 9_223_372_036_854_775_808 → wrap_int64 (pos n) ≡ pos n
wrap-small n h =
    let same : n % 18_446_744_073_709_551_616 ≡ n = omega (arith, h) in
    elim (Bool-cases (ltb n 9_223_372_036_854_775_808)) [
      | inl e ↦ rw (same, e) refl
      | inr e ↦ absurd (ground (arith, e, h))
    ]

add-pos : (a b : ℕ) → add_ℤ (pos a) (pos b) ≡ pos (a + b)
add-pos a b = ground arith

mul-pos : (a b : ℕ) → mul_ℤ (pos a) (pos b) ≡ pos (a * b)
mul-pos a b = ground arith

up-pos : (n p : ℕ) → n ≤ bound → p ≤ 400 → up (pos p) (pos n) ≡ pos (next_level p n)
unfolding up
up-pos n p a b =
    let top : n * (100 + p) ≤ bound * 500 = product_le n p a b in
    rw (add-pos 100 p) (
      rw (wrap-small (100 + p) (omega (arith, b))) (
        rw (mul-pos n (100 + p)) (
          rw (wrap-small (n * (100 + p)) (omega (arith, top))) (
            rw (add-pos (n * (100 + p)) 99)
              (rw (wrap-small (n * (100 + p) + 99) (omega (arith, top))) refl)))))

-- The new level is higher than the old one.
level_grows : (n p : ℕ) → 1 ≤ n → 10 ≤ p → n < next_level p n
level_grows n p a b = let low : n * 110 ≤ n * (100 + p) = product_ge n p b in omega (arith, a, low)

level_le : (m n p : ℕ) → m ≤ n → next_level p m ≤ next_level p n
level_le m n p a =
    let low : m * (100 + p) ≤ n * (100 + p) = product_mono m n p a in omega (arith, low)

-- Every level of the second settings is above that of the first; an ante of 0 stays.
abbrev pub Grows : Settings → Settings → Type 0
Grows s u =
    (pos_part s.small_blind < pos_part u.small_blind)
    × (pos_part s.big_blind < pos_part u.big_blind)
    × ((pos_part s.ante ≡ 0) ⊎ (pos_part s.ante < pos_part u.ante))

-- One step of the blind schedule leaves valid settings valid and raises every level, without an
-- overflow of an int64, as long as the big blind and the ante are at most 10^16.
pub raised-IsValid :
    (s : Settings) (n : ℕ)
    → IsValid s n
    → pos_part s.big_blind ≤ bound
    → pos_part s.ante ≤ bound
    → IsValid (raised s) n × Grows s (raised s)
unfolding raised
raised-IsValid s n v big_fits ante_fits =
    by_parts v.small_blind v.big_blind v.ante v.blinds_up_percent
  where
    ante_of :
        (c p : ℕ)
        → s.ante ≡ pos c
        → s.blinds_up_percent ≡ pos p
        → c ≤ bound
        → p ≤ 400
        → 10 ≤ p
        → AtLeast 0 (raised s).ante
          × ((pos_part s.ante ≡ 0) ⊎ (pos_part s.ante < pos_part (raised s).ante))
    ante_of c p ec ep fits hi lo = elim (Bool-cases (ltb_ℤ (pos 0) s.ante)) [
      | inl e ↦
          let some_ante : ltb_ℤ (pos 0) (pos c) ≡ true = rw ec at e in
          let level : up s.blinds_up_percent s.ante ≡ pos (next_level p c) =
            rw (ec, ep) (up-pos c p fits hi) in
          rw (e, raised)
            (rw level (
              (next_level p c, refl, omega arith),
              inr (rw ec (level_grows c p (ground (arith, some_ante)) lo)),
            ))
      | inr e ↦
          let no_ante : ltb_ℤ (pos 0) (pos c) ≡ false = rw ec at e in
          rw (e, raised) (rw ec ((c, refl, omega arith), inl (ground (arith, no_ante))))
    ]

    by_parts :
        AtLeast 1 s.small_blind
        → AtLeast (pos_part s.small_blind) s.big_blind
        → AtLeast 0 s.ante
        → Within 10 s.blinds_up_percent 400
        → IsValid (raised s) n × Grows s (raised s)
    by_parts (a, ea, la) (b, eb, lb) (c, ec, lc) (p, ep, lo, hi) =
        let ab : a ≤ b = rw ea at lb in
        let fits : b ≤ bound = rw eb at big_fits in
        let small : (raised s).small_blind ≡ pos (next_level p a) =
          rw (ea, ep, raised) (up-pos a p (omega (arith, ab, fits)) hi) in
        let big : (raised s).big_blind ≡ pos (next_level p b) =
          rw (eb, ep, raised) (up-pos b p fits hi) in
        let ante_parts : AtLeast 0 (raised s).ante
            × ((pos_part s.ante ≡ 0) ⊎ (pos_part s.ante < pos_part (raised s).ante)) =
          ante_of c p ec ep (rw ec at ante_fits) hi lo in
        (
          record {
            max_players = v.max_players;
            room = v.room;
            royal_room = v.royal_room;
            variant = v.variant;
            start_money = v.start_money;
            small_blind = (next_level p a, small, omega (arith, level_grows a p la lo));
            big_blind = (next_level p b, big, rw small (level_le a b p ab));
            ante = ante_parts.0;
            turn_time = v.turn_time;
            disconnected_turn_time = v.disconnected_turn_time;
            sit_out_after_missed_turns = v.sit_out_after_missed_turns;
            join_policy = v.join_policy;
            showdown_reveal = v.showdown_reveal;
            hand_delay_ms = v.hand_delay_ms;
            blinds_up_minutes = v.blinds_up_minutes;
            blinds_up_percent = v.blinds_up_percent;
            time_bank_seconds = v.time_bank_seconds;
            time_bank_refill_seconds = v.time_bank_refill_seconds;
          },
          (
            rw (small, ea) (level_grows a p la lo),
            rw (big, eb) (level_grows b p (omega (arith, la, ab)) lo),
            ante_parts.1,
          ),
        )

resume_clock-pause :
    (d e : Deps) (t u : Table)
    → pause d t ≡ ok u
    → d.now < t.blinds_up_at
    → ltb_ℤ (pos 0) t.settings.blinds_up_minutes ≡ true
    → (resume_clock e (set_state running table_resumed u)).blinds_up_at
      ≡ e.now + (t.blinds_up_at - d.now)
unfolding pause resume_clock
resume_clock-pause d e t u p left scheduled = elim (Bool-cases (not (is_running t.state))) [
  | inl f ↦ cc (rw f at p)
  | inr f ↦
      let armed : ltb 0 t.blinds_up_at ≡ true = ground (arith, left) in
      let remains : ltb 0 (t.blinds_up_at - d.now) ≡ true = ground (arith, left) in
      let stopped : Table = note audited (stop_clock d (set_state paused table_paused t)) in
      let same : stopped ≡ u = cc (rw f at p) in
      subst
        (λ (x : Table).
          (resume_clock e (set_state running table_resumed x)).blinds_up_at
          ≡ e.now + (t.blinds_up_at - d.now))
        same (rw (armed, resume_clock) (rw (remains, scheduled, resume_clock) refl))
]

paused-after : (d : Deps) (t u : Table) → pause d t ≡ ok u → u.state ≡ paused
unfolding pause
paused-after d t u p = elim (Bool-cases (not (is_running t.state))) [
  | inl f ↦ cc (rw f at p)
  | inr f ↦
      let stopped : Table = note audited (stop_clock d (set_state paused table_paused t)) in
      let same : stopped ≡ u = cc (rw f at p) in
      subst (λ (x : Table). x.state ≡ paused) same
        (if_both (λ (x : Table). x.state ≡ paused) (ltb 0 t.blinds_up_at) (λ _. refl) λ _. refl)
]

-- Where a table that has a blind schedule, and whose next raise is yet to come, is paused and resumed
-- later, `Resume` makes it run again and goes on to deal with the raise due at the time of resuming
-- plus the time that was left when the table was paused.
pub resume-pause :
    (d e : Deps) (t u : Table)
    → pause d t ≡ ok u
    → d.now < t.blinds_up_at
    → ltb_ℤ (pos 0) t.settings.blinds_up_minutes ≡ true
    → (x : Table) × (resume e u ≡ maybe_start_hand e x)
      × (x.blinds_up_at ≡ e.now + (t.blinds_up_at - d.now))
      × (x.state ≡ running)
unfolding resume resume_clock
resume-pause d e t u p left scheduled =
    let halted : u.state ≡ paused = paused-after d t u p in
    let due = resume_clock-pause d e t u p left scheduled in
    (
      note audited (resume_clock e (set_state running table_resumed u)),
      rw halted refl,
      due,
      if_both (λ (x : Table). x.state ≡ running)
          (ltb 0 u.blinds_paused_ms && ltb_ℤ (pos 0) u.settings.blinds_up_minutes) (λ _. refl)
          λ _. refl,
    )
