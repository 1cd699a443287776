-- ===== src/Budget.antt =====
-- The budget ledger: its rows as JSON, their validation, the plan and the admission of a run, and the
-- ownership of an active row (internal/budget).
pub mod Json
pub mod Numbers
pub mod Domain
pub mod History
pub mod Ledger
pub mod Finalize
pub mod Observation
pub mod Plan
pub mod Admit
