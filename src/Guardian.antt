-- ===== src/Guardian.antt =====
-- src/daemon/xtest_guardian/protocol.rs: the frames between the daemon and the process that owns the
-- X11 connection, and the state that both keep of their session.
pub mod Wire
pub mod Bytes
pub mod Encode
pub mod Decode
pub mod Numbers
pub mod Codes
pub mod Payload
pub mod EncodeLaws
pub mod DecodeLaws
pub mod Lengths
pub mod RoundTrip
pub mod State
pub mod Accept
pub mod Outcomes
pub mod TokenLaws
pub mod Bounded
pub mod History
pub mod Refusals
pub mod Session
pub mod Connection
