-- ===== src/Config.antt =====
-- config.py: the validated configuration, and what the validators accept.
pub mod Types
pub mod Fields
pub mod ExtraArgs
pub mod Global
pub mod Runtime
pub mod Remote
pub mod Claims
pub mod Ownership
pub mod LocalRank
