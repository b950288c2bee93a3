-- ===== src/Http.antt =====
-- transport/httpapi: the control plane over HTTP.
pub mod Wire
pub mod Handler
pub mod Auth
pub mod Client
pub mod Exchange
pub mod Remote
pub mod Answers
pub mod Stream
pub mod Permission
pub mod Admission
mod Tests
