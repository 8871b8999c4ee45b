-- ===== src/Io.antt =====
-- lib/io/bgpview_io.c and lib/io/bgpview_io.h: prefixes, peers and paths as bytes.
pub mod Outcome
pub mod Host
pub mod Ip
pub mod Peer
pub mod Path
pub mod Row
pub mod ReadRow
pub mod Examples
