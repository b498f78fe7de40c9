-- ===== src/Protocol.antt =====
-- src/protocol.mjs: the errors, the validation of a request, the names of the dynamic tools, and
-- one response segment.
pub mod Error
pub mod Request
pub mod Valid
pub mod Tools
pub mod Segment
