-- ===== src/Notifyd.antt =====
-- notify/notifyd.py: the notification server.
pub mod Db
pub mod Client
pub mod Udp
pub mod Directory
pub mod World
pub mod Mutexes
pub mod Wire
pub mod Tcp
pub mod Sample
mod Tests
