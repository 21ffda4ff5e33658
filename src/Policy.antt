-- ===== src/Policy.antt =====
-- tellyq/domain/policy.py: what a session may conclude from ordered receiver samples.
mod Intents
mod Attribution
mod Media
mod Observe
mod Rule
pub mod Validity
pub mod History
pub mod Expiry
pub mod Completion
pub mod Confirmation
pub mod Runs
unfoldable pub use Intents.*
unfoldable pub use Attribution.*
unfoldable pub use Media.*
unfoldable pub use Observe.*
