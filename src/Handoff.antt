-- ===== src/Handoff.antt =====
-- tellyq/handoff.py: when the receiver is given back after a natural end.
mod Diagnostics
mod Tracking
mod Release
unfoldable pub use Diagnostics.*
unfoldable pub use Tracking.*
unfoldable pub use Release.*
pub mod Vetoes
pub mod Eligibility
