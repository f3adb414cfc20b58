-- ===== src/Lib.antt =====
-- rust-ipfs: the bookkeeping of the bitswap protocol, the paths of content-addressed data, pins, and
-- files as trees of blocks.
--
-- Bitswap exchanges blocks between peers. A client keeps sessions: each asks for content ids, which
-- first wait in a queue, are then live, and end when a block arrives. What a session asks for is
-- sent to peers as want-haves and want-blocks, and cancelled when it is no longer needed. A server
-- keeps the wants of its peers as tasks, which it pops peer by peer.
-- Each part below is a data structure behind a lock, so a method is one step; the tasks that call
-- the methods over channels are not modelled.
-- A file is added as leaves of at most the chunk size, which blocks of links join into a tree.
--
-- Files, with the code under packages/beetle-bitswap-next/src unless another path is given:
--   Base                     numbers, lists, Boolean tests, equality; maps and sets as lists
--   Bitswap/Wantlist         client/wantlist.rs, and WantType of message.rs
--   Bitswap/Message          message.rs and block.rs, without the encoding
--   Bitswap/RecallWantlist   client/message_queue/wantlist.rs, over Wantlist
--   Bitswap/WantsUpdate      client/message_queue.rs: updates and rebroadcasts, over RecallWantlist
--   Bitswap/SessionInterest  client/session_interest_manager.rs
--   Bitswap/BlockPresence    client/block_presence_manager.rs
--   Bitswap/CidQueue         client/session/cid_queue.rs
--   Bitswap/SessionWants     client/session/session_wants.rs, over CidQueue
--   Bitswap/Ledger           server/ledger.rs, over Wantlist
--   Bitswap/PeerWants        client/peer_want_manager.rs
--   TaskQueue/Task           peer_task_queue/peer_task.rs
--   TaskQueue/TaskMerger     server/task_merger.rs, a merger in the sense of Task
--   TaskQueue/PeerTracker    peer_task_queue/peer_tracker.rs, over Task and KeyedQueue
--   TaskQueue/PeerQueue      peer_task_queue.rs, over PeerTracker and KeyedQueue
--   TaskQueue/KeyedQueue     the crate keyed_priority_queue, as an interface with laws;
--                            TaskQueue/ListQueue shows that the laws can hold
--   Path                     src/path.rs, over the texts of content ids and peer ids
--   Pins                     src/repo/datastore/memory.rs: the documents of pins; Pins/Store the
--                            operations, over serde_json and the texts of content ids;
--                            Pins/Contents what the documents of a store say;
--                            Pins/Queries what `list` and `query` answer
--   Unixfs/Nodes             unixfs/src/pb.rs and unixfs/src/pb: the messages of a file's blocks
--   Unixfs/Collector         unixfs/src/file/adder.rs: the balanced collector
--   Unixfs/Adder             unixfs/src/file/adder.rs: the chunker and the file adder, over Collector
--   Unixfs/Reader            unixfs/src/file/reader.rs: one block of a file, over its parser
--   Unixfs/Visit             unixfs/src/file/visit.rs: the walk over a file's blocks, over Reader
--
-- A method keeps its name; what it mutates is an argument and a part of its result. A file beside a
-- component's own proves what its name says; Tests.antt holds runs on small inputs. Content ids,
-- peers and topics are any type with a Boolean equality. A map is an association list with each key
-- once, a set a list, walked in the order of the list where the standard library leaves the order
-- open. Calls of another component are returned as messages, in order; an instant is a
-- number that is handed in; a panic or a failed assertion is `none`. The loop of `pop_tasks` has the
-- number of pending tasks as fuel, which is enough since each round pops one.
-- The loops of the file adder have one round of fuel more than there are links, levels or bytes, and
-- end before it; with a branching factor of one they do not, whatever the fuel.
--
-- Counters and sums of `usize` and `i64` are unbounded numbers: that an addition overflows is not
-- modelled. Where the code subtracts, the model says what happens below zero; there `none` is the
-- panic of a build that checks for overflow.
--
-- Not modelled: the event loops, the network and its codecs, the repository with its file and
-- database back ends, the walks and directories of UnixFS, IPNS, the generated protobuf code, and the archived crates.
pub mod Base
pub mod Bitswap
pub mod Path
pub mod Pins
pub mod TaskQueue
pub mod Unixfs
