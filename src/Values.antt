-- ===== src/Values.antt =====
-- tellyq/domain/values.py: the immutable application values.
mod Instants
mod Media
mod Commands
mod Observations
mod Sessions
pub use Instants.*
pub use Media.*
pub use Commands.*
unfoldable pub use Observations.*
unfoldable pub use Sessions.*
