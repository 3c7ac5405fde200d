-- ===== src/Platform.antt =====
-- Zephyr and the build configuration, as the code uses them: the interface, and a small platform
-- that meets its laws.
mod Defs
pub mod Model
pub use Defs.*
