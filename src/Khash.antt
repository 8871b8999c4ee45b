-- ===== src/Khash.antt =====
-- khash.h, the hash table that every table of the view is an instance of. It is not part of the
-- repository: what it does is the parameter `Interface.Khash`.
pub mod Reset
pub mod Buckets
pub mod Scan
pub mod Stop
pub mod Lookup
pub mod Walk
pub mod Interface
pub mod Linear
pub mod Sweep
