-- ===== src/View.antt =====
-- lib/bgpview.c and the enums of lib/bgpview.h: the view, its iterators and their operations.
pub mod Field
pub mod Types
pub mod State
pub mod PeerIter
pub mod PfxIter
pub mod PfxPeerIter
pub mod Store
pub mod Activate
pub mod Create
pub mod Remove
pub mod Invariant
pub mod Examples
pub mod User
pub mod Access
pub mod Lifecycle
pub mod Clear
pub mod Copy
