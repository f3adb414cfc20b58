-- ===== src/TaskQueue.antt =====
-- packages/beetle-bitswap-next/src/peer_task_queue.rs and its modules, and the task merger of
-- src/server/task_merger.rs.
pub mod Task
pub mod KeyedQueue
pub mod ListQueue
pub mod TaskMerger
pub mod PeerTracker
pub mod PeerQueue
