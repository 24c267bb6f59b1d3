-- ===== src/Table/Settings/Laws.antt =====
-- settings.go: what `Apply` and `SettingsFromRow` guarantee.
use showdown.Base.{
  ℕ, ◌≡◌, refl, sym, ◌∙◌, inl, inr, Bool, true, false, List, [], ◌∷◌, ◌++◌, Option, none, some,
  filter, All,
}
use mathlib.Core.Path.{subst}
use showdown.Base.Int.{ℤ, is_zero_ℤ}
use showdown.Base.Outcome.{Outcome, ok, refused, panic}
use showdown.Base.Text.{Text, is_empty_text}
use showdown.Table.Settings.{Settings}
use showdown.Table.Settings.Fields.{Field, tournament_keeps, applies_next_hand}
use showdown.Table.Settings.Fields
use showdown.Table.Settings.Views.{row, settings_from_row}
use showdown.Table.Settings.Patch.{
  SettingsPatch, or_kept, merged, mark, changed_fields, Applied, apply_patch,
}
use showdown.Table.Settings.Validate.{validate, variants}
use showdown.Table.Settings.Valid.{IsValid, Listed}
use showdown.Table.Settings.Checks.{validate-IsValid}

-- What `Apply` answers: valid settings with the patch merged in, or an error for settings that are
-- not valid.
abbrev pub Answers : Settings → SettingsPatch → Text → ℕ → Outcome (List Field) Applied → Type 0
Answers s p hash seated (ok a) =
    (a.settings ≡ merged s p hash)
    × IsValid a.settings seated
    × (a.changed ≡ changed_fields p)
    × (a.next ≡ filter applies_next_hand (changed_fields p))
Answers s p hash seated (refused fs) = ¬ IsValid (merged s p hash) seated
Answers s p hash seated panic = ⊥

pub apply_patch-Answers :
    (s : Settings) (p : SettingsPatch) (hash : Text) (seated : ℕ)
    → Answers s p hash seated (apply_patch s p hash seated)
unfolding apply_patch
apply_patch-Answers s p hash seated = by_errors (validate (merged s p hash) seated) refl
  where
    by_errors :
        (fs : List Field)
        → validate (merged s p hash) seated ≡ fs
        → Answers s p hash seated (apply_patch s p hash seated)
    by_errors [] e =
        rw (e, apply_patch) (refl, (validate-IsValid (merged s p hash) seated).0 e, refl, refl)
    by_errors (f ∷ fs) e =
        rw (e, apply_patch) λ v. cc (sym e ∙ (validate-IsValid (merged s p hash) seated).1 v)

-- The settings that a tournament keeps.
pub record Stakes : Type 0 where
  pub tournament : Bool
  pub start_money : ℤ
  pub small_blind : ℤ
  pub big_blind : ℤ
  pub ante : ℤ
  pub max_players : ℤ
  pub variant : Text
  pub allow_rebuy : Bool
  pub showdown_reveal : Text
  pub blinds_up_minutes : ℤ
  pub blinds_up_percent : ℤ

abbrev pub stakes : Settings → Stakes
stakes s = record {
  tournament = s.tournament;
  start_money = s.start_money;
  small_blind = s.small_blind;
  big_blind = s.big_blind;
  ante = s.ante;
  max_players = s.max_players;
  variant = s.variant;
  allow_rebuy = s.allow_rebuy;
  showdown_reveal = s.showdown_reveal;
  blinds_up_minutes = s.blinds_up_minutes;
  blinds_up_percent = s.blinds_up_percent;
}

-- A patch that names none of them.
abbrev pub KeepsStakes : SettingsPatch → Type 0
KeepsStakes p = All (λ f. tournament_keeps f ≡ false) (changed_fields p)

mark-kept :
    {A : Type 0} (new : Option A) (old : A) (f : Field) (rest : List Field)
    → tournament_keeps f ≡ true
    → All (λ g. tournament_keeps g ≡ false) (mark new f ++ rest)
    → (or_kept new old ≡ old) × All (λ g. tournament_keeps g ≡ false) rest
mark-kept none old f rest k h = (refl, h)
mark-kept (some new) old f rest k h = absurd (cc (sym k ∙ h.0))

mark-passed :
    {A : Type 0} (new : Option A) (f : Field) (rest : List Field)
    → All (λ g. tournament_keeps g ≡ false) (mark new f ++ rest)
    → All (λ g. tournament_keeps g ≡ false) rest
mark-passed none f rest h = h
mark-passed (some new) f rest h = h.1

merged-stakes :
    (s : Settings) (p : SettingsPatch) (hash : Text)
    → KeepsStakes p
    → stakes (merged s p hash) ≡ stakes s
unfolding merged changed_fields
merged-stakes s p hash h0 =
    let h1 = mark-passed p.password Fields.password _ h0 in
    let (e_max_players, h2) = mark-kept p.max_players s.max_players Fields.max_players _ refl h1 in
    let (e_start_money, h3) = mark-kept p.start_money s.start_money Fields.start_money _ refl h2 in
    let (e_small_blind, h4) = mark-kept p.small_blind s.small_blind Fields.small_blind _ refl h3 in
    let (e_big_blind, h5) = mark-kept p.big_blind s.big_blind Fields.big_blind _ refl h4 in
    let (e_ante, h6) = mark-kept p.ante s.ante Fields.ante _ refl h5 in
    let h7 = mark-passed p.turn_time Fields.turn_time _ h6 in
    let h8 = mark-passed p.disconnected_turn_time Fields.disconnected_turn_time _ h7 in
    let h9 = mark-passed p.sit_out_after_missed_turns Fields.sit_out_after_missed_turns _ h8 in
    let h10 = mark-passed p.join_policy Fields.join_policy _ h9 in
    let h11 = mark-passed p.allow_spectators Fields.allow_spectators _ h10 in
    let h12 = mark-passed p.spectator_chat Fields.spectator_chat _ h11 in
    let h13 = mark-passed p.chat_enabled Fields.chat_enabled _ h12 in
    let (e_allow_rebuy, h14) =
      mark-kept p.allow_rebuy s.allow_rebuy Fields.allow_rebuy _ refl h13 in
    let (e_showdown_reveal, h15) =
      mark-kept p.showdown_reveal s.showdown_reveal Fields.showdown_reveal _ refl h14 in
    let h16 = mark-passed p.auto_start Fields.auto_start _ h15 in
    let h17 = mark-passed p.hand_delay_ms Fields.hand_delay_ms _ h16 in
    let h18 = mark-passed p.allow_rabbit_hunt Fields.allow_rabbit_hunt _ h17 in
    let h19 = mark-passed p.allow_advice Fields.allow_advice _ h18 in
    let h20 = mark-passed p.allow_drawing Fields.allow_drawing _ h19 in
    let (e_tournament, h21) = mark-kept p.tournament s.tournament Fields.tournament _ refl h20 in
    let (e_blinds_up_minutes, h22) =
      mark-kept p.blinds_up_minutes s.blinds_up_minutes Fields.blinds_up_minutes _ refl h21 in
    let (e_blinds_up_percent, h23) =
      mark-kept p.blinds_up_percent s.blinds_up_percent Fields.blinds_up_percent _ refl h22 in
    let h24 = mark-passed p.time_bank_seconds Fields.time_bank_seconds _ h23 in
    let h25 = mark-passed p.time_bank_refill_seconds Fields.time_bank_refill_seconds _ h24 in
    let h26 = mark-passed p.allow_straddle Fields.allow_straddle _ h25 in
    let h27 = mark-passed p.run_it_twice Fields.run_it_twice _ h26 in
    let e_variant = last_kept p.variant s.variant h27 in
    cc (
      e_tournament, e_start_money, e_small_blind, e_big_blind, e_ante, e_max_players, e_variant,
      e_allow_rebuy, e_showdown_reveal, e_blinds_up_minutes, e_blinds_up_percent,
    )
  where
    last_kept :
        (new : Option Text) (old : Text)
        → All (λ g. tournament_keeps g ≡ false) (mark new Fields.variant)
        → or_kept new old ≡ old
    last_kept none old h = refl
    last_kept (some new) old h = absurd (cc (h.0))

-- When `Apply` accepts a patch and none of the fields that it reports as changed is in
-- `TournamentLocked`, the settings it returns have the eleven settings of that list (the starting
-- money, the blinds, the ante, the seats, the variant and the rest of them) as they were.
pub apply_patch-stakes :
    (s : Settings) (p : SettingsPatch) (hash : Text) (seated : ℕ) (a : Applied)
    → apply_patch s p hash seated ≡ ok a
    → All (λ f. tournament_keeps f ≡ false) a.changed
    → stakes a.settings ≡ stakes s
apply_patch-stakes s p hash seated a e kept =
    let (same, valid, fields, next) =
      subst (Answers s p hash seated) e (apply_patch-Answers s p hash seated) in
    rw same (merged-stakes s p hash (rw fields at kept))

Listed-nonempty : (v : Text) → Listed v variants → is_empty_text v ≡ false
Listed-nonempty v (inl e) = rw e refl
Listed-nonempty v (inr (inl e)) = rw e refl
Listed-nonempty v (inr (inr e)) = absurd e

-- Valid settings with a starting level are read back from their row.
pub settings_from_row-row :
    (s : Settings) (seated : ℕ) (id : Text)
    → IsValid s seated
    → is_zero_ℤ s.start_big_blind ≡ false
    → settings_from_row (row s id) ≡ s
unfolding settings_from_row row
settings_from_row-row s seated id v some_level =
    rw (Listed-nonempty s.variant v.variant, some_level) refl
