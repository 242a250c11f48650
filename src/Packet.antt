-- ===== src/Packet.antt =====
-- notify/packet.py: the packets of the notification protocol.
pub mod Struct
pub mod Service
pub mod Notice
pub mod Register
pub mod Clear
pub mod Atp
mod Tests
