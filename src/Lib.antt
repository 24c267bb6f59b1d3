-- ===== src/Lib.antt =====
-- Showdown: a table server for Hold'em poker (backend/) with a Flutter client (frontend/). The
-- server is the authority: it runs every hand in the engine of backend/internal/poker, and every
-- table in an actor of backend/internal/table. This library models both. A table owns a hand and
-- calls the methods of `Hand`; each call changes the hand in place and returns events, which the
-- table sends out. The table is asked for things by players, by its host and by its one timer, one
-- request after the other.
--
-- Files and sources
--   Poker/Card        backend/internal/poker/card.go: ranks, suits, cards, ParseCard, Deck,
--                     SecureShuffle. Card/Text and Card/Decks have the proofs.
--   Poker/Eval        eval.go: evaluate5, straightTop, encode, Evaluate, Compare. Eval/Best compares
--                     Evaluate with the list of all choices of five cards.
--   Poker/Pots        pots.go: buildPots. Pots/Levels, Pots/Conserve and Pots/Eligible are about it.
--   Poker/Types       the types of hand.go, events.go and errors.go.
--   Poker/Words       Describe and DescribeHole, the English for a hand.
--   Poker/Hand        hand.go, by its parts. State: the struct `Hand` and emit, draw, next, index.
--                     Round: needsToAct, nextActor, mayRaise, roundComplete, returnUncalled,
--                     collect. Moves: Options, perform, commit. Show: reveal, potWinnersOn,
--                     showdownOrder, mustShow. Award: awardPots, finishUncontested, finish.
--                     Turn: settle, endStreet, showdown, Apply, Timeout. Calls: RunItTwice,
--                     Advance, RevealNext, ShowCards, Forfeit. Deal, with Deal/Posting:
--                     NewHand. Views: State, Rank, BestCards, MadeHand and the other methods
--                     that only read.
--   Poker/Hand/Inv    what a valid hand is (`Inv`), with Ids for what a call never changes of the
--                     players, and Asked for the player to act. The modules Chips, Uncalled, Shows, Paying,
--                     Awards, Scan, Order, Showdown, Settles, Acts, Leaving, Streets, Reveals and Late
--                     are about the operations, Posts, Blinds, Straddles, Holes and
--                     Starts about NewHand, Offers about Options against perform, Made about
--                     MadeHand and RemainingBoard, and Runs about sequences of calls.
--   Poker/Tests       concrete hands, and in Tests/Cards cards, decks, values and pots.
--   Table/Settings    backend/internal/table/settings.go: the settings, their defaults, public and
--                     admin views and rows, Validate, Apply. Fields, Validate, Patch and Views have
--                     the code, Valid, Checks and Laws the proofs.
--   Table/Types       the types of table.go and errors.go. Seats: looking up and changing players,
--                     emit, schedule. Create: newTable and the check of Create (registry.go).
--   Table/Clock       scheduleStart, applyChips, raiseBlinds, armBlindsClock, setState.
--   Table/Finish      finishHand, freeSeat, voidHand, endTable, assignPlaces.
--   Table/Engine      applyEngineEvents, applyPreAction, the vote on two boards, afterEngine.
--   Table/Deal        maybeStartHand, startHand, and moving to another seat.
--   Table/Play        the timer: advanceHand, revealStep, onTurnTimeout, clearHand.
--   Table/Players     Join, Action, ChangeSeat. Requests: SetPreAction, SitOut, SitIn, Rebuy, Leave,
--                     RunTwice, ShowCards, RabbitHunt.
--   Table/Host        BlindsUp, UpdateSettings, Start, Pause, Resume, End, Restart, Kick,
--                     AdjustChips, Mute, SetVoice, SetAvatar, SetStraddle, CameraOff, MuteVoice.
--   Table/Seating     the array of seats against the map of players (`Seating`).
--   Table/Sound       what a sound table is (`Sound`), and by child modules what keeps it: Finishing,
--                     Playing, Dealing, Commands, Requests, Hosting, Timers; Reached is about
--                     sequences of requests. Poker/Hand/Turns, Moments and Nearer give what a table
--                     needs of the engine: somebody is to act, and passive actions end the round.
--   Table/Ended       what an ended table refuses. Choices: the seat of a newcomer and the next
--                     button. Blinds: the schedule, and how a pause stops it.
--   Table/Tests       concrete settings, and in Tests/Games a table with two players.
--   Base              tests on numbers, lists, sorting, integers, results of code that may fail.
--
-- A valid hand. The boards have the cards of the street and the deck has those still to come; all
-- these and the hole cards are cards 0 to 51, the seats are below ten, and toAct and aggressor are
-- indices of players or -1. While
-- players bet, nobody's bet is above the current one and at least two players did not fold.
-- Between two streets and in the showdown the bets are collected; the showdown is at the river and
-- has a player to show. After the hand there are no bets and no commitments, and there are results.
--
-- How the code is read
--   * `Hand` is a record that an operation takes and returns with the events so far; the players
--     are a list in the order of the slice. The map `bySeat` points to the same players, so a
--     lookup by seat searches the list and a write through it changes the entry. -1 is `none`.
--   * The methods return `Outcome`: `ok`, `refused` for an error value, `panic` for a run-time
--     panic (an index out of range, a nil dereference, a division by zero, an explicit panic).
--     An index of a player out of range panics in Apply, Timeout, Options and showdownOrder, and a
--     card above 51 in Evaluate and Description; since these test their cards, the tables of names
--     and of counts behind them are only read in range.
--   * Chips are int64 in the source and natural numbers here, without an upper bound; the amount
--     of an action comes from a client and is an integer of either sign. NewHand's refusals of
--     negative numbers have no case.
--   * sort.Slice is an insertion sort; the keys that it is called with are distinct, or equal
--     elements cannot be told apart.
--   * `encode` adds what the source joins by bits; the bytes of straightTop wrap around.
--   * A loop over a round of players has as many steps as there are players, as in the source. The
--     one loop without a bound, in showdownOrder, gets one round, after which it would repeat.
--   * The shuffle that a table passes to NewHand, and the answers of crypto/rand in SecureShuffle,
--     are parameters. Theorems about a hand from NewHand assume that the shuffle of cards of the
--     deck gives cards of the deck, and that each seat is below ten.
--
-- How the table is read
--   * `Table` is a record without connections, chat, drawings and the equity display. `seats` holds
--     ids where the source has pointers, and a pointer is followed in `players`; a write through a
--     pointer changes the entry. Ids are opaque, so they are numbers; -1 and nil are `none`.
--   * A command takes the table and returns it, or `refused` for an error value, which changes
--     nothing. `panic` is a run-time panic.
--   * The one timer is what it does when it fires, with its delay. Firing is a request like a
--     command, at any time; an action that was cancelled or replaced cannot fire.
--   * What is sent or stored is a list of notes: the events with their sequence numbers, and which
--     rows are written.
--   * The clock, the random index, the shuffle and the delays are the parameters `Deps`, of which the
--     theorems assume `Picks`: the index is in range and the shuffle gives cards of the deck; the id
--     that is drawn for a new player and the name after its normalisation come with the request.
--   * Stacks and the start money are natural numbers, which the checks on the settings and on
--     adjustments allow; startHand refuses an ante that wrapped below zero, and the blinds of the schedule are computed in int64, with its wrap-around.
--   * afterEngine calls itself after an automatic action. Here it has as many of these as the hand
--     has players, and one more is a panic, which is shown not to happen.
--
-- Not modelled: notes.go; equity.go, which has floating-point numbers; of the table connections,
-- spectators, chat, drawings, voice relay, snapshots, standings and the contents of stored rows; the
-- server, the store, the sign-in, the bots, the commands, the client.
pub mod Base
pub mod Poker
pub mod Table
