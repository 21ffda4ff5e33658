-- ===== src/Queue.antt =====
-- tellyq/domain/queue.py: the durable queue, its attempts and its command journal.
mod Native
mod Entries
pub use Native.*
pub use Entries.*
