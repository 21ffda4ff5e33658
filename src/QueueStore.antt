-- ===== src/QueueStore.antt =====
-- tellyq/queue_store.py: the durable queue store, its transactions and its journal of commands.
mod Rows
mod NativeRows
mod Transactions
mod Starts
mod Controls
mod Transitions
mod Settlements
mod NativeRequests
mod Stagings
mod NativeTransitions
mod Adoptions
mod Exits
mod Operations
pub mod Advances
pub mod Bodies
pub mod Commits
pub mod Transacted
pub mod Writes
pub mod Additions
pub mod Histories
pub mod Dispatch
pub mod NativeDispatch
pub mod NativeAdoption
pub mod Retries
pub mod Restarts
pub mod Endings
unfoldable pub use Rows.*
unfoldable pub use NativeRows.*
unfoldable pub use Transactions.*
unfoldable pub use Starts.*
unfoldable pub use Controls.*
unfoldable pub use Transitions.*
unfoldable pub use Settlements.*
unfoldable pub use NativeRequests.*
unfoldable pub use Stagings.*
unfoldable pub use NativeTransitions.*
unfoldable pub use Adoptions.*
unfoldable pub use Exits.*
unfoldable pub use Operations.*
