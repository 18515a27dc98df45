-- ===== src/Helper.antt =====
-- src/okam_native/amd64_helper.py: the native helper of amd64 hosts, over the CS2 client.
pub mod Input
pub mod Summary
pub mod Process
pub mod Stream
pub mod Run
pub mod Main
pub mod Accepted
