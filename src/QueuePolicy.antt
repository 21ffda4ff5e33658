-- ===== src/QueuePolicy.antt =====
-- tellyq/domain/queue_policy.py: what the owner of a queue may do next.
mod Decisions
mod Queues
mod Receivers
mod Identity
mod Decide
pub mod Material
pub mod Outcomes
pub mod Evidence
unfoldable pub use Decisions.*
unfoldable pub use Queues.*
unfoldable pub use Receivers.*
unfoldable pub use Identity.*
unfoldable pub use Decide.*
