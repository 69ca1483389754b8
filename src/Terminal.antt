-- ===== src/Terminal.antt =====
-- The terminal programs of lab4 and lab5: the typing trainer, the password reader, the broadcaster,
-- the moving cursor and the line editor.
pub mod Move
pub mod Walls
pub mod Editor
pub mod Broadcaster
pub mod Typer
pub mod Password
pub mod Echo
mod Tests
