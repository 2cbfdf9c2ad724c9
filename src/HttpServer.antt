-- ===== src/HttpServer.antt =====
-- src/httpserver.cpp: one HTTP request on one connection. State has the connection and what it
-- answers, Head the request line and the headers, Body the two ways a body is read, Events what the
-- socket and the timers call.
pub mod Wire
pub mod State
pub mod Head
pub mod Body
pub mod Events
pub mod Tests
