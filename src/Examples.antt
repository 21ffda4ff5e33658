-- ===== src/Examples.antt =====
-- Tests at concrete inputs, and the theorems at inputs that meet their hypotheses.
mod Sessions
mod Queues
mod Store
mod Native
mod Execution
mod Handoff
mod Saves
mod Receiver
mod Phases
