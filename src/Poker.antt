-- ===== src/Poker.antt =====
-- backend/internal/poker, the engine of a hand of Hold'em, one module for each of its files.
pub mod Card
pub mod Eval
pub mod Pots
pub mod Types
pub mod Words
pub mod Hand
pub mod Tests
