-- ===== src/Shell.antt =====
-- HW1: the shell `smash`. Its parts are the modules below.
pub mod Trace
pub mod Jobs
pub mod Text
pub mod Numbers
pub mod State
pub mod Builtin
pub mod External
pub mod Executor
pub mod Pipe
pub mod Redirection
pub mod Loop
pub mod Children
pub mod Idle
mod Tests
