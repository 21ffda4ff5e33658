-- ===== src/QueueStore/Bodies.antt =====
-- tellyq/queue_store.py: each operation's rows advance those that it read.
pub mod Intents
pub mod Transitions
pub mod Natives
pub mod Adoptions
