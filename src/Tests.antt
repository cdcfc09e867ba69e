-- ===== src/Tests.antt =====
-- Runs of the modelled code on concrete inputs, where the theorems' hypotheses hold.
mod Data
mod Machine
mod Generating
mod Access
mod Calling
mod Arbitrating
mod Metering
mod Rows
mod Dispatching
mod Rollouts
mod Services
mod Resuming
mod Prompting
mod Drawing
mod Caching
mod Naming
mod Compacting
