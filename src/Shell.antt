-- ===== src/Shell.antt =====
-- The mini shells of lab7: variables, expansion, redirection, background jobs, `if` blocks and signals.
pub mod Vars
pub mod Parse
pub mod Exec
pub mod Block
pub mod Resume
pub mod Session
pub mod Table
pub mod Signals
pub mod Assign
pub mod MiniShell1
pub mod MiniShell3
mod Tests
