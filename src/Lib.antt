-- ===== src/Lib.antt =====
-- A verification development for bgpview. Its core (lib/bgpview.c, lib/bgpview.h) is a view of the BGP
-- routing table, which maps prefixes to the peers that observe them, and the iterators through which every
-- part of the repository reads and changes it. lib/io/bgpview_io.c writes and reads parts of a view as
-- bytes, for the file format and the transports. lib/consumers/bvc_moas.c is a consumer: it is given a
-- view after the other, and reports the prefixes that more than one AS originates. The server of
-- lib/io/zmq gathers what its clients send into the views of a window of time, and publishes them.
--
-- A view has a table of IPv4 prefixes, one of IPv6 prefixes and one of peers. A prefix has a table
-- of the peers that announced it (its entries, "pfx-peers"). Prefixes, peers and entries each have a
-- state, ACTIVE, INACTIVE or INVALID, and there are counters of all of them by state: in the view,
-- in each prefix and in each peer.
--
-- Files.
--   Base, Base/Tests, Base/Lists: shared names, Boolean tests, lists over the native numbers.
--   Khash/Buckets: what a khash table shows, an array of buckets; Khash/Reset: loops that overwrite entries; Khash/Interface: the operations of
--     khash.h that place keys, as a parameter with their laws; Khash/Linear: an instance of it;
--     Khash/Scan, Khash/Stop: the loops that walk over buckets; Khash/Sweep: the loops that free the
--     entries of a table.
--   View/Field: field states, masks and counters; View/Types: the structures; View/State: actions
--     on a view and an iterator that stop at a failed assert or a bad access; View/Store: reads and
--     writes where an iterator stands.
--   View/PeerIter, View/PfxIter, View/PfxPeerIter: the iterators ("PEER ITERATORS" and so on in
--     lib/bgpview.c); View/PeerIter/Order, View/PfxIter/Order: loops over them; View/PeerIter/Seek,
--     View/PfxIter/Seek: searches; View/PfxPeerIter/Stops: where the loop over all entries stops.
--   View/Create, View/Remove, View/Activate: "CREATION FUNCS" and "ACTIVATE/DEACTIVATE".
--   View/User, View/Access: user pointers and their destructors, getters and setters;
--     View/Access/Counted: what the counts are.
--   View/Lifecycle: creating, destroying and garbage-collecting a view; Lifecycle/Gc and
--     Lifecycle/Ledger: what is collected, and which destructors are called. View/Clear, View/Copy:
--     bgpview_clear, bgpview_copy and bgpview_dup; View/Clear/Peers, Prefixes, Whole: what bgpview_clear leaves;
--     View/Copy/Leaves, Reads, Shared, Source: the view that is copied, and the tables that the copy has in common with it.
--   View/Invariant and its children: what the counters count, and how they follow a change.
--   View/Activate/Pair, Pfx, Entry, Counted: activating and deactivating one entry, and the counters;
--     Peer: activating a peer; Loop, Stopped, PfxLoop, PfxRound, Prefix: deactivating a prefix with
--     all of its entries.
--   View/Examples and its children: a small view, and the theorems applied to it.
--   Io (lib/io/bgpview_io.c): Io/Outcome: results, errors and aborts; Io/Host: the layout of integers
--     in memory, as a parameter; Io/Ip, Io/Peer, Io/Path: addresses, prefixes, peers and paths as bytes;
--     Io/Row, Io/ReadRow: a prefix with its entries, written and read; Io/Row/Ends: runs that
--     end well; Io/Row/Written: what is written is a row that a reader passes over; RoundTrip under Io/Ip and Io/Peer
--     and Framing under Io/ReadRow: what is written is read; Io/ReadRow/Missing: a row to be
--     deactivated; Io/Examples: the theorems applied.
--   Moas (lib/consumers/bvc_moas.c): Moas/Types: the structures; Moas/Table: add_moas and clean_moas
--     on the table; Moas/Process: bvc_moas_process_view; Note, Clean, Finished, Round: what a lookup and
--     the output file show of them; Equal: the equality of signatures; Process/Ends, Signature,
--     Detection: what is detected; Process/Windows: the window from one view to the next; Moas/Examples: the theorems applied.
--   Zmq (lib/io/zmq/bgpview_io_zmq_store.c, lib/io/zmq/bgpview_io_zmq_server.c): Zmq/Types, Zmq/Op:
--     the structures, and actions on the store; Zmq/Sview: one view of it, completed, published and
--     removed (Runs: what is left then); Zmq/Store: the operations of the store; Store/Window: the views
--     at the places of their times; Checked, Slide, Get, Notify, Disconnect, Updated, Timeouts: what the operations
--     do to them; Timeouts/Skips: a view that is passed over; Zmq/Server: the clients (Ids: their
--     identities); Zmq/Messages: the handlers of messages (Receive: a view); Zmq/Loop: run_server
--     (Running, Reached, Start: the server between two calls of it; Purge: which clients are left);
--     Zmq/Views: the views of lib/bgpview.c as those of the store; Zmq/Examples: the theorems applied.
--   Khash/Lookup, Khash/Walk: what a table holds for a key, and loops that change the entries.
--
-- A function bgpview_iter_f of the source is iter_f here, a macro __iter_f is f or move_f, and a
-- static function keeps its name. An int result of -1, 0 or 1 is a value of Ret.
--
-- What is a parameter. khash.h and libbgpstream are not part of the repository: `Khash` and `Env`
-- (View/Types) stand for them. Prefixes, peer signatures, the signature map, AS paths and the path
-- store are abstract. `IoEnv` (Io/Path) adds what the serialization uses of them, and `Host` the machine;
-- `MoasEnv` (Moas/Types) has the tables of that consumer, qsort, and what the consumers before it left.
-- `ZmqEnv` (Zmq/Types) has the operations on views that the store calls (`ViewOps`), the sets of names,
-- the table of connected clients, and whether publishing succeeds; that bgpview_clear returns is a
-- hypothesis, `Clears` (Zmq/Views has it for the views of lib/bgpview.c). `ServerEnv` (Zmq/Server) adds the server's table and whether a frame can be sent;
-- what run_server receives, and the clock, which does not go on during a call, are arguments.
--
-- Numbers. Counters wrap at their width, 2^16 for the counters of a prefix and 2^32 for the others.
-- Times of the store wrap at 2^32 and those of the server at 2^64; the theorems bound them by a horizon
-- that leaves room for the window and two places more.
--
-- Fuel. A loop over peers or entries takes a round for each bucket and one more, and a loop over both
-- prefix tables two more; the theorems on these loops show that this is enough. The functions that
-- call one another (deactivate a prefix and its entries, remove a prefix and its entries) take the
-- number of nested calls; for bgpview_iter_deactivate_pfx two are enough, since the prefix is inactive
-- before its entries are.
--
-- bgpview_copy works on two states. Where the two views have a table by the same pointer, what is written
-- to the one is written to the other (`aliased` in View/Copy).
--
-- Destructor calls are a log: of an action, in its state; of bgpview_gc and bgpview_destroy, in their
-- result. A pointer is a number, and NULL is 0.
--
-- Not modelled. Everything outside the files named above.
-- Of bvc_moas.c: options, timeseries and processing times, and failing writes to the output file.
-- Of lib/io/zmq: sockets and options, metrics, publishing itself, the frames of a view, the client and
-- its broker. Memory exhaustion; the wall clock, which is an argument; the AS path segment iterator; the two
-- layouts of an entry (with and without a user pointer) are one record, whose user field a view with
-- disable_extended leaves alone.
pub mod Base
pub mod Khash
pub mod View
pub mod Io
pub mod Moas
pub mod Zmq
