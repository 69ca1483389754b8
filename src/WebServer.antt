-- ===== src/WebServer.antt =====
-- The web servers of lab9: webserver.c, which serves one client after the other, and
-- webserver-mt.c, where worker threads take the clients from a bounded queue.
pub mod Queue
pub mod Threads
pub mod Request
