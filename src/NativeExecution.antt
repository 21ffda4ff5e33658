-- ===== src/NativeExecution.antt =====
-- tellyq/native_queue_execution.py: operations on the receiver's own queue, claimed and sent once.
mod Requests
mod Execute
unfoldable pub use Requests.*
unfoldable pub use Execute.*
pub mod Laws
pub mod Runs
pub mod Once
pub mod Stored
