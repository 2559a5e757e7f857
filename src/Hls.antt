-- ===== src/Hls.antt =====
-- backend/hls_multiplexer.py: the HLS proxy, which shares one upstream stream between its clients.
pub mod Multiplexer
pub mod Manager
pub mod SegmentCache
