-- ===== src/Poker/Hand.antt =====
-- backend/internal/poker/hand.go, the state machine of one hand, by the parts of the file.
pub mod State
pub mod Round
pub mod Moves
pub mod Show
pub mod Award
pub mod Turn
pub mod Calls
pub mod Deal
pub mod Chips
pub mod Uncalled
pub mod Shows
pub mod Paying
pub mod Ids
pub mod Inv
pub mod Asked
pub mod Awards
pub mod Scan
pub mod Order
pub mod Showdown
pub mod Settles
pub mod Acts
pub mod Leaving
pub mod Streets
pub mod Reveals
pub mod Late
pub mod Runs
pub mod Views
pub mod Posts
pub mod Blinds
pub mod Straddles
pub mod Holes
pub mod Starts
pub mod Offers
pub mod Made
pub mod Turns
pub mod Moments
pub mod Nearer
