-- ===== src/Echo.antt =====
-- The echo server and the echo client of demo/SimpleTCPEchoServer.c and
-- demo/TCPEchoClient_SingleTasks.c. The kernel and FreeRTOS+TCP are parameters.
pub mod Server
pub mod Client
pub mod Examples
