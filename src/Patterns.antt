-- ===== src/Patterns.antt =====
-- patterns/base.py and groups/calculator.py: the calculations that the patterns share, and the
-- choice of the pattern. The patterns themselves are in the child modules.
mod Shared
mod Fixed
mod Waves
mod Randomized
pub mod Calculator
pub mod Targets
pub mod Returns
pub mod Bounds
pub mod Interface
unfoldable pub use Shared.*
unfoldable pub use Fixed.*
unfoldable pub use Waves.*
unfoldable pub use Randomized.*
