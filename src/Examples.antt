-- ===== src/Examples.antt =====
-- Concrete inputs of the theorems.
mod Events
mod Runs
mod Names
mod Arrivals
mod Views
mod Calls
mod Indexes
mod Workers
mod Papers
mod Published
mod Files
mod Envelopes
