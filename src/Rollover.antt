-- ===== src/Rollover.antt =====
-- The promotion of students to the next school year:
-- apps/api/src/modules/rollover/rollover.promotion.ts.
pub mod Run
pub mod ClassName
pub mod Keys
pub mod Evaluation
pub mod Promotion
pub mod Execute
pub mod Tests
mod RunTests
mod EnrollmentTests
