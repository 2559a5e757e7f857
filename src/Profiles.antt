-- ===== src/Profiles.antt =====
-- backend/stream_profiles.py: the profiles that a client may ask for, the syntax of such a request, and
-- what a request resolves to.
pub mod Profile
pub mod CopiedVideo
pub mod H26x
pub mod OpenCodecs
pub mod Table
pub mod ContentType
pub mod Request
pub mod Resolve
pub mod Policy
pub mod Tests
