-- ===== src/Config.antt =====
-- The settings store of lib/framework/sys_cfg.c and its users.
pub mod Hash
pub mod SysCfg
pub mod Decimal
pub mod DevNonce
pub mod Model
pub mod Shell
