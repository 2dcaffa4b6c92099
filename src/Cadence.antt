-- ===== src/Cadence.antt =====
-- Calls that are put off: extensions/cadence. `Row` is what is stored of a call, `Metronome` what
-- becomes of a stored row that was disposed of, `Dispatcher` makes the calls, and `Schedule` stores
-- the next call of a calendar; `Scheduler` is handed a calendar by an operation. A call at
-- intervals of a cycle is `Pulse`, beside this module.
--
-- What a cron expression says comes next (`occurrences`, of the package croner) is a parameter: a
-- function of the expression with its zone, and of a moment.
pub mod Row
pub mod Metronome
pub mod Dispatcher
pub mod Schedule
pub mod Scheduler
mod Tests
