-- ===== src/App/System.antt =====
-- The program as a whole.
pub mod Sends
pub mod RadioSends
pub mod Handlers
pub mod Run
pub mod Fifo
pub mod Boot
pub mod Hops
pub mod Pipeline
