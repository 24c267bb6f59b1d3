-- ===== src/Table/Settings/Checks.antt =====
-- settings.go: `Settings.Validate` accepts exactly the settings that satisfy the constraints.
use showdown.Base.{ℕ, ◌≡◌, ◌↔◌, refl, Bool, true, false, not, ◌||◌, List, [], ◌++◌}
use showdown.Base.Int.{pos, ltb_ℤ}
use showdown.Base.Text.{one_of}
use showdown.Table.Settings.{Settings}
use showdown.Table.Settings.Fields.{Field}
use showdown.Table.Settings.Fields
use showdown.Table.Settings.Validate.{
  refuse, outside, join_policies, reveal_policies, variants, bad_max_players, validate,
}
use showdown.Table.Settings.Valid.{
  IsValid, outside-Within, Within-inside, not_below-AtLeast, AtLeast-not_below, one_of-Listed,
  Listed-one_of, max_players_iff, not_below-blind, blind-not_below, disconnected-Within,
  Within-disconnected,
}

-- The first check of a list of checks.
unrefused :
    (bad : Bool) (f : Field) (rest : List Field)
    → (refuse bad f ++ rest) ≡ []
    → (bad ≡ false) × (rest ≡ [])
unrefused true f rest h = cc
unrefused false f rest h = (refl, h)

all_pass :
    (bad : Bool) (f : Field) (rest : List Field)
    → bad ≡ false
    → rest ≡ []
    → (refuse bad f ++ rest) ≡ []
all_pass bad f rest h k = rw (h, k) refl

last_refused : (bad : Bool) (f : Field) → refuse bad f ≡ [] → bad ≡ false
last_refused true f h = cc
last_refused false f h = refl

module _ (s : Settings) (seated : ℕ) where
  accepted-IsValid : validate s seated ≡ [] → IsValid s seated
  unfolding validate
  accepted-IsValid h0 =
      let (c0, h1) = unrefused (bad_max_players s seated) Fields.max_players _ h0 in
      let (c1, h2) = unrefused (not (one_of s.variant variants)) Fields.variant _ h1 in
      let (c2, h3) =
        unrefused (outside 1 s.start_money 1_000_000_000_000) Fields.start_money _ h2 in
      let (c3, h4) = unrefused (ltb_ℤ s.small_blind (pos 1)) Fields.small_blind _ h3 in
      let (c4, h5) = unrefused (ltb_ℤ s.big_blind s.small_blind) Fields.big_blind _ h4 in
      let (c5, h6) = unrefused (ltb_ℤ s.ante (pos 0)) Fields.ante _ h5 in
      let (c6, h7) = unrefused (outside 5 s.turn_time 600) Fields.turn_time _ h6 in
      let (c7, h8) =
        unrefused
          (ltb_ℤ s.disconnected_turn_time (pos 3) || ltb_ℤ s.turn_time s.disconnected_turn_time)
          Fields.disconnected_turn_time _ h7 in
      let (c8, h9) =
        unrefused (outside 1 s.sit_out_after_missed_turns 10) Fields.sit_out_after_missed_turns _
          h8 in
      let (c9, h10) =
        unrefused (not (one_of s.join_policy join_policies)) Fields.join_policy _ h9 in
      let (c10, h11) =
        unrefused (not (one_of s.showdown_reveal reveal_policies)) Fields.showdown_reveal _ h10 in
      let (c11, h12) = unrefused (outside 2000 s.hand_delay_ms 15000) Fields.hand_delay_ms _ h11 in
      let (c12, h13) =
        unrefused (outside 0 s.blinds_up_minutes 600) Fields.blinds_up_minutes _ h12 in
      let (c13, h14) =
        unrefused (outside 10 s.blinds_up_percent 400) Fields.blinds_up_percent _ h13 in
      let (c14, h15) =
        unrefused (outside 0 s.time_bank_seconds 120) Fields.time_bank_seconds _ h14 in
      let c15 =
        last_refused (outside 0 s.time_bank_refill_seconds 30) Fields.time_bank_refill_seconds
          h15 in
      let (players, room, royal) = (max_players_iff s seated).0 c0 in
      let small = not_below-AtLeast 1 s.small_blind c3 in
      let turn = outside-Within 5 600 s.turn_time c6 in
      record {
        max_players = players;
        room = room;
        royal_room = royal;
        variant = one_of-Listed s.variant variants c1;
        start_money = outside-Within 1 1_000_000_000_000 s.start_money c2;
        small_blind = small;
        big_blind = not_below-blind s.small_blind s.big_blind small c4;
        ante = not_below-AtLeast 0 s.ante c5;
        turn_time = turn;
        disconnected_turn_time = disconnected-Within s.disconnected_turn_time s.turn_time turn c7;
        sit_out_after_missed_turns = outside-Within 1 10 s.sit_out_after_missed_turns c8;
        join_policy = one_of-Listed s.join_policy join_policies c9;
        showdown_reveal = one_of-Listed s.showdown_reveal reveal_policies c10;
        hand_delay_ms = outside-Within 2000 15000 s.hand_delay_ms c11;
        blinds_up_minutes = outside-Within 0 600 s.blinds_up_minutes c12;
        blinds_up_percent = outside-Within 10 400 s.blinds_up_percent c13;
        time_bank_seconds = outside-Within 0 120 s.time_bank_seconds c14;
        time_bank_refill_seconds = outside-Within 0 30 s.time_bank_refill_seconds c15;
      }

  IsValid-accepted : IsValid s seated → validate s seated ≡ []
  unfolding validate
  IsValid-accepted v =
      all_pass (bad_max_players s seated) Fields.max_players _
        ((max_players_iff s seated).1 (v.max_players, v.room, v.royal_room))
        (all_pass (not (one_of s.variant variants)) Fields.variant _
          (Listed-one_of s.variant variants v.variant)
          (all_pass (outside 1 s.start_money 1_000_000_000_000) Fields.start_money _
            (Within-inside 1 1_000_000_000_000 s.start_money v.start_money)
            (all_pass (ltb_ℤ s.small_blind (pos 1)) Fields.small_blind _
              (AtLeast-not_below 1 s.small_blind v.small_blind)
              (all_pass (ltb_ℤ s.big_blind s.small_blind) Fields.big_blind _
                (blind-not_below s.small_blind s.big_blind v.small_blind v.big_blind)
                (all_pass (ltb_ℤ s.ante (pos 0)) Fields.ante _ (AtLeast-not_below 0 s.ante v.ante) (
                  all_pass (outside 5 s.turn_time 600) Fields.turn_time _
                    (Within-inside 5 600 s.turn_time v.turn_time)
                    (all_pass
                      (ltb_ℤ s.disconnected_turn_time (pos 3)
                        || ltb_ℤ s.turn_time s.disconnected_turn_time)
                      Fields.disconnected_turn_time _
                      (Within-disconnected s.disconnected_turn_time s.turn_time v.turn_time
                        v.disconnected_turn_time)
                      (all_pass (outside 1 s.sit_out_after_missed_turns 10)
                        Fields.sit_out_after_missed_turns _
                        (Within-inside 1 10 s.sit_out_after_missed_turns
                          v.sit_out_after_missed_turns)
                        (all_pass (not (one_of s.join_policy join_policies)) Fields.join_policy _
                          (Listed-one_of s.join_policy join_policies v.join_policy)
                          (all_pass (not (one_of s.showdown_reveal reveal_policies))
                            Fields.showdown_reveal _
                            (Listed-one_of s.showdown_reveal reveal_policies v.showdown_reveal)
                            (all_pass (outside 2000 s.hand_delay_ms 15000) Fields.hand_delay_ms _
                              (Within-inside 2000 15000 s.hand_delay_ms v.hand_delay_ms)
                              (all_pass (outside 0 s.blinds_up_minutes 600) Fields.blinds_up_minutes
                                _ (Within-inside 0 600 s.blinds_up_minutes v.blinds_up_minutes)
                                (all_pass (outside 10 s.blinds_up_percent 400)
                                  Fields.blinds_up_percent _
                                  (Within-inside 10 400 s.blinds_up_percent v.blinds_up_percent)
                                  (all_pass (outside 0 s.time_bank_seconds 120)
                                    Fields.time_bank_seconds _
                                    (Within-inside 0 120 s.time_bank_seconds v.time_bank_seconds)
                                    (rw
                                      (Within-inside 0 30 s.time_bank_refill_seconds
                                        v.time_bank_refill_seconds)
                                      refl)))))))))))))))

  -- `Validate` finds no error exactly in settings that satisfy every constraint, among them that the
  -- seats suffice for the players who sit and that a royal table has at most six.
  pub validate-IsValid : (validate s seated ≡ []) ↔ IsValid s seated
  validate-IsValid = (accepted-IsValid, IsValid-accepted)
