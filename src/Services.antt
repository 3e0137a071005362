-- ===== src/Services.antt =====
-- services: the lifecycle status of documents.
pub mod Status
