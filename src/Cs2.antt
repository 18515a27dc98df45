-- ===== src/Cs2.antt =====
-- src/okam_native/cs2.py
pub mod Cipher
pub mod Address
pub mod Wire
pub mod Session
pub mod Data
pub mod Pump
pub mod Progress
pub mod Kept
pub mod Channel
pub mod Delivery
pub mod Service
pub mod Create
pub mod Relay
pub mod Outreach
pub mod Connect
pub mod Request
pub mod Command
pub mod Login
pub mod Video
