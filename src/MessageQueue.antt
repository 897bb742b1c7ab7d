-- ===== src/MessageQueue.antt =====
-- HW3/message_queue.c, a bounded queue of messages between the thread that accepts connections and
-- the worker threads, with four policies for a full queue.
pub mod Types
pub mod Holds
pub mod Random
pub mod Drop
pub mod Put
pub mod Get
pub mod Free
pub mod Calm
pub mod Spec
pub mod Trip
mod Tests
