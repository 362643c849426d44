-- ===== src/Examples.antt =====
-- The programs of examples/ as clients of the library.
pub mod Add
pub mod Echo
pub mod Stateful
pub mod Broadcast
pub mod Http
pub mod PingPong
