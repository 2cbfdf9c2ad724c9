-- ===== src/ReceiveService.antt =====
-- src/receiveservice.cpp: the endpoints a sender talks to, and the incoming session.
pub mod FileName
pub mod State
pub mod Finish
pub mod Prepare
pub mod Upload
pub mod Machine
pub mod Fixtures
mod Tests
