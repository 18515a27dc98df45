-- ===== src/P2p.antt =====
-- src/okam_native/p2p.py: the directory of the vendor, and the probes that run the native helper.
pub mod Field
pub mod Diagnostics
pub mod Results
pub mod Report
pub mod Jpeg
pub mod Directory
pub mod Snapshot
pub mod Line
