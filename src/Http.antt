-- ===== src/Http.antt =====
-- The HTTP service of protocols/HTTP: the command table, the requests to read and to write memory,
-- the replies, and the work function of a client.
pub mod Commands
pub mod World
pub mod Numbers
pub mod PeekPoke
pub mod Work
pub mod Reading
pub mod Memory
pub mod Poke
pub mod Buffers
pub mod Examples
