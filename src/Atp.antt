-- ===== src/Atp.antt =====
-- notify/ntypes.py: queued packets, and the object that sends, retransmits and answers them.
pub mod Queue
pub mod Object
mod Tests
