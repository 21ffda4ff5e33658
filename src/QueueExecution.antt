-- ===== src/QueueExecution.antt =====
-- tellyq/queue_execution.py: commands that are journaled, claimed and sent to a device once.
mod Actions
mod Requests
mod Port
mod Execute
pub mod Laws
pub mod Effects
pub mod Rounds
pub mod Watched
pub mod Runs
pub mod Once
pub mod Stored
pub mod Composed
pub use Actions.*
unfoldable pub use Requests.*
pub use Port.*
unfoldable pub use Execute.*
