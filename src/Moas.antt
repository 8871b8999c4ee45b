-- ===== src/Moas.antt =====
-- lib/consumers/bvc_moas.c: prefixes that more than one AS originates ("multi-origin AS", MOAS), which
-- are followed through a window of time.
pub mod Types
pub mod Table
pub mod Note
pub mod Equal
pub mod Clean
pub mod Process
pub mod Examples
pub mod Round
pub mod Finished
