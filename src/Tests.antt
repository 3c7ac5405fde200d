-- ===== src/Tests.antt =====
-- Concrete states, and the theorems applied to them.
pub mod Base
mod Framework
mod Config
mod App
mod Shtc3
pub mod System
mod Board
mod Threads
