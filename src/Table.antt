-- ===== src/Table.antt =====
-- backend/internal/table: the actor of a table, around the engine of a hand.
pub mod Settings
pub mod Types
pub mod Seats
pub mod Clock
pub mod Finish
pub mod Engine
pub mod Deal
pub mod Play
pub mod Players
pub mod Requests
pub mod Host
pub mod Create
pub mod Seating
pub mod Sound
pub mod Ended
pub mod Blinds
pub mod Choices
mod Tests
