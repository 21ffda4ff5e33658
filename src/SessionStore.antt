-- ===== src/SessionStore.antt =====
-- tellyq/session_store.py: sessions on disk, and what a restart makes of them.
mod Records
unfoldable pub use Records.*
mod Files
unfoldable pub use Files.*
pub mod Restored
pub mod Saved
