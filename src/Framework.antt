-- ===== src/Framework.antt =====
-- The message framework of lib/framework and include/framework.
pub mod Types
pub mod BufferPool
pub mod World
pub mod Effect
pub mod SysCore
pub mod Deliveries
pub mod Broadcast
pub mod Receiver
pub mod Ownership
pub mod Timer
pub mod SysMsg
pub mod Threads
