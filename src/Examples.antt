-- ===== src/Examples.antt =====
-- The theorems of the parts at concrete inputs: a class of two students in fixed-point numbers.
mod Fixtures
mod Scores
mod Hours
mod Standing
mod Service
mod Writes
mod Toy
mod Client
mod Record
mod Interleave
mod Breakdown
mod Page
mod Risk
mod Table
