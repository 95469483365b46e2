-- ===== src/Reuse.antt =====
-- `RunReuseCache` of pageindex/utils.py: values that concurrent tasks of one run load only once.
pub mod Cache
pub mod Runs
pub mod Below
pub mod Kept
pub mod Progress
pub mod Ends
pub mod Creators
pub mod OneLoad
pub mod Examples
