-- ===== src/Examples.antt =====
-- Concrete inputs: the packages that the code calls, in a small form, tests by evaluation, and
-- the theorems at inputs that fulfil their hypotheses.
mod Transactions
pub mod Toy
mod Onions
mod Basics
mod Logs
mod Batches
mod Errors
mod Circuits
mod Commands
mod Journeys
mod Calls
