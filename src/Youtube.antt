-- ===== src/Youtube.antt =====
-- tellyq/youtube_state.py: what the provider's player state shows of the content.
mod State
unfoldable pub use State.*
pub mod Phases
