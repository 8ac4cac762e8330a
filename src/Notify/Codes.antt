-- ===== src/Notify/Codes.antt =====
-- The enumerations of xbee_notify.h, one module each.
pub mod FrameType
pub mod TxMesg
pub mod SockMesg
pub mod StateMesg
