-- ===== src/MessageQueue/Tests.antt =====
-- Runs of the operations of the queue, and the theorems at concrete inputs.
mod Queues
mod Calls
mod Errors
