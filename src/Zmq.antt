-- ===== src/Zmq.antt =====
-- lib/io/zmq: the server's store of views.
pub mod Types
pub mod Views
pub mod Op
pub mod Sview
pub mod Store
pub mod Server
pub mod Messages
pub mod Loop
pub mod Examples
