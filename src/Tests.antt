-- ===== src/Tests.antt =====
-- Runs of the model at concrete inputs, and the theorems there.
mod Signals
mod Roots
mod Strings
mod Objects
mod Collector
mod Accessors
mod Conversions
mod Buses
mod Promises
mod Outputs
