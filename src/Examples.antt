-- ===== src/Examples.antt =====
-- Concrete runs: the properties applied at inputs that exercise the code.
mod Settings
mod Fragments
mod Reviews
mod Ledgers
mod Loops
mod Resumes
mod Admissions
