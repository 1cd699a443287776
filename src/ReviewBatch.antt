-- ===== src/ReviewBatch.antt =====
-- The batched review: a diff's files split into fragments, packed into batches, reviewed by workers
-- under run-wide allowances, and counted (internal/reviewbatch).
pub mod Types
pub mod Split
pub mod Plan
pub mod Coverage
pub mod Admission
pub mod Execute
