-- ===== src/Publish.antt =====
-- utils/publish: what is published, and how it is signed.
pub mod Artifact
pub mod Authenticity
