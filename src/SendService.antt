-- ===== src/SendService.antt =====
-- src/sendservice.cpp: the outgoing transfer. State has the service and what it posts, End the ways
-- in which a transfer ends, Upload the files one after the other, Prepare the request and its
-- answer, Machine all of these as events.
pub mod State
pub mod End
pub mod Upload
pub mod Prepare
pub mod Machine
pub mod Fixtures
mod Tests
