-- ===== src/Redis/Server.antt =====
-- src/redis_server.cpp: the responses, the parser of commands and the handlers. Sockets and threads are
-- not modelled.
pub mod Text
pub mod Handlers
pub mod Hset
pub mod Numbers
pub mod Responses
pub mod Parser
pub mod BulkStrings
pub mod RoundTrip
