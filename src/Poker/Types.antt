-- ===== src/Poker/Types.antt =====
-- backend/internal/poker/hand.go (the types), errors.go and events.go: what a hand is made of.
-- Seats, chips and blinds are natural numbers; an index of -1 is `none`. A map keyed by seats is
-- a list of pairs, and a nil pointer is `none`.
use showdown.Base.{ℕ, Bool, List, Option}
use showdown.Base.Int.{ℤ}
use showdown.Base.Text.{Text}
use showdown.Poker.Card.{Card, Variant}
use showdown.Poker.Pots.{Pot}

pub data Street : Type 0 where
  preflop flop turn river : Street

-- `PhaseShowdown` is `showing`.
pub data Phase : Type 0 where
  betting deal_pending showing result : Phase

pub data RevealPolicy : Type 0 where
  reveal_all reveal_winners_only reveal_in_order : RevealPolicy

-- `unknown` stands for every other string that a client may send.
pub data ActionKind : Type 0 where
  fold check call bet raise all_in unknown : ActionKind

pub record Action : Type 0 where
  pub kind : ActionKind
  pub amount : ℤ

pub data Error : Type 0 where
  not_your_turn illegal_action amount_out_of_range unknown_seat wrong_phase : Error
  too_few_players invalid_blinds no_shuffle no_chips duplicate_seat no_button : Error
  deck_too_small deck_changed : Error

pub record HandConfig : Type 0 where
  pub small_blind : ℕ
  pub big_blind : ℕ
  pub ante : ℕ
  pub button_seat : ℕ
  pub reveal : RevealPolicy
  pub dead_blinds : List (ℕ × ℕ)
  pub straddle_seat : Option ℕ
  pub straddle_amount : ℕ
  pub variant : Variant

pub record Seat : Type 0 where
  pub seat : ℕ
  pub stack : ℕ

pub record RaiseRange : Type 0 where
  pub min_to : ℕ
  pub max_to : ℕ

pub record Options : Type 0 where
  pub fold : Bool
  pub check : Bool
  pub call : ℕ
  pub raise : Option RaiseRange
  pub all_in : ℕ

pub record PotWinner : Type 0 where
  pub seat : ℕ
  pub amount : ℕ

pub record PotAward : Type 0 where
  pub index : ℕ
  pub amount : ℕ
  pub winners : List PotWinner
  pub description : Text
  pub board : ℕ

pub record SeatResult : Type 0 where
  pub seat : ℕ
  pub start_stack : ℕ
  pub end_stack : ℕ
  pub net : ℤ
  pub won : ℕ
  pub folded : Bool
  pub all_in : Bool
  pub revealed : Bool
  pub cards : List Card
  pub description : Text
  pub best : List Card

pub record Results : Type 0 where
  pub pots : List PotAward
  pub seats : List SeatResult

pub record Player : Type 0 where
  pub seat : ℕ
  pub stack : ℕ
  pub start_stack : ℕ
  pub hole0 : Card
  pub hole1 : Card
  pub shown0 : Bool
  pub shown1 : Bool
  pub dead_blind : ℕ
  pub folded : Bool
  pub all_in : Bool
  -- betThisStreet
  pub bet : ℕ
  -- completed streets and antes
  pub committed : ℕ
  pub has_acted : Bool
  pub acted_at_full_level : ℕ
  pub revealed : Bool
  pub mucked : Bool
  pub last_action : Option Action
  pub won : ℕ

pub data BlindKind : Type 0 where
  small big dead straddle : BlindKind

pub record HandStart : Type 0 where
  pub button_seat : ℕ
  pub sb_seat : ℕ
  pub bb_seat : ℕ
  pub small_blind : ℕ
  pub big_blind : ℕ
  pub ante : ℕ
  pub stacks : List (ℕ × ℕ)

pub record Reveal : Type 0 where
  pub seat : ℕ
  pub cards : List Card
  pub description : Text
  pub best : List Card
  pub shown0 : Bool
  pub shown1 : Bool

-- One constructor for each kind, with the fields that the kind sets; `Seat` is -1 where there is
-- none.
pub data EventBody : Type 0 where
  hand_started : HandStart → EventBody
  ante_posted : (seat amount : ℕ) → Bool → EventBody
  blind_posted : (seat : ℕ) → BlindKind → (amount : ℕ) → Bool → EventBody
  hole_cards_dealt : (seat : ℕ) → List Card → EventBody
  acted : (seat : ℕ) → ActionKind → (amount : ℕ) → Bool → Street → EventBody
  timed_out : (seat : ℕ) → ActionKind → EventBody
  uncalled_returned : (seat amount : ℕ) → EventBody
  street_dealt : Street → List Card → (board : ℕ) → EventBody
  pots_updated : List Pot → EventBody
  hands_revealed : List Reveal → EventBody
  mucked : (seat : ℕ) → EventBody
  pot_awarded : (index seat amount : ℕ) → Text → (board : ℕ) → EventBody
  hand_ended : Results → EventBody

pub record Event : Type 0 where
  pub seq : ℕ
  pub body : EventBody
