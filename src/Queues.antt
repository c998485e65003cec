-- ===== src/Queues.antt =====
-- Queues and stacks: .graphs/queue, .graphs/coarse_stack, .graphs/bounded_queue and perf/.
pub mod StmQueue
pub mod StackStm
pub mod BoundedQueue
pub mod ProfileQueue
pub mod BatchQueue
pub mod QueueBench
pub mod StackBench
