-- ===== src/Table/Settings/Validate.antt =====
-- settings.go: `Settings.Validate` and `ValidatePassword`. The messages of the errors are not
-- modelled: an error is the field that it names.
use showdown.Base.{ℕ, Bool, not, ◌&&◌, ◌||◌, List, [], ◌∷◌, ◌++◌, ltb, ◌==◌, if◌then◌else◌, length}
use showdown.Base.Int.{ℤ, pos, ltb_ℤ}
use showdown.Base.Text.{Text, one_of, eq_text}
use showdown.Table.Settings.{
  Settings, join_always, join_before_start, join_closed, show_all, show_winners_only, show_in_order,
  variant_holdem, variant_royal, royal_max_players,
}
use showdown.Table.Settings.Fields.{Field}
use showdown.Table.Settings.Fields

-- `if bad { ve.add(field, ...) }`
abbrev pub refuse : Bool → Field → List Field
refuse bad f = if bad then f ∷ [] else []

-- `x < lo || x > hi`
abbrev pub outside : ℕ → ℤ → ℕ → Bool
outside lo x hi = ltb_ℤ x (pos lo) || ltb_ℤ (pos hi) x

abbrev pub join_policies : List Text
join_policies = join_always ∷ join_before_start ∷ join_closed ∷ []

abbrev pub reveal_policies : List Text
reveal_policies = show_all ∷ show_winners_only ∷ show_in_order ∷ []

abbrev pub variants : List Text
variants = variant_holdem ∷ variant_royal ∷ []

-- The first `switch`.
abbrev pub bad_max_players : Settings → ℕ → Bool
bad_max_players s seated =
    outside 2 s.max_players 10
    || (ltb_ℤ s.max_players (pos seated)
        || (eq_text s.variant variant_royal && ltb_ℤ (pos royal_max_players) s.max_players))

-- `Settings.Validate`: the fields in the order in which they are added.
unfoldable pub validate : Settings → ℕ → List Field
validate s seated =
    refuse (bad_max_players s seated) Fields.max_players
    ++ (refuse (not (one_of s.variant variants)) Fields.variant
        ++ (refuse (outside 1 s.start_money 1_000_000_000_000) Fields.start_money
            ++ (refuse (ltb_ℤ s.small_blind (pos 1)) Fields.small_blind
                ++ (refuse (ltb_ℤ s.big_blind s.small_blind) Fields.big_blind
                    ++ (refuse (ltb_ℤ s.ante (pos 0)) Fields.ante
                        ++ (refuse (outside 5 s.turn_time 600) Fields.turn_time
                            ++ (refuse
                                  (ltb_ℤ s.disconnected_turn_time (pos 3)
                                    || ltb_ℤ s.turn_time s.disconnected_turn_time)
                                  Fields.disconnected_turn_time
                                ++ (refuse (outside 1 s.sit_out_after_missed_turns 10)
                                      Fields.sit_out_after_missed_turns
                                    ++ (refuse (not (one_of s.join_policy join_policies))
                                          Fields.join_policy
                                        ++ (refuse (not (one_of s.showdown_reveal reveal_policies))
                                              Fields.showdown_reveal
                                            ++ (refuse (outside 2000 s.hand_delay_ms 15000)
                                                  Fields.hand_delay_ms
                                                ++ (refuse (outside 0 s.blinds_up_minutes 600)
                                                      Fields.blinds_up_minutes
                                                    ++ (refuse (outside 10 s.blinds_up_percent 400)
                                                          Fields.blinds_up_percent
                                                        ++ (refuse
                                                            (outside 0 s.time_bank_seconds 120)
                                                            Fields.time_bank_seconds
                                                            ++ refuse
                                                            (outside 0 s.time_bank_refill_seconds
                                                            30)
                                                            Fields.time_bank_refill_seconds))))))))))))))

-- `ValidatePassword`: the text is the list of the runes.
unfoldable pub validate_password : Text → List Field
validate_password pw =
    refuse (not (length pw == 0) && (ltb (length pw) 4 || ltb 64 (length pw))) Fields.password
