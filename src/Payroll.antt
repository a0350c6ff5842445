-- ===== src/Payroll.antt =====
-- Payroll: apps/api/src/modules/payroll. The calculators of `calculator/`, and the monthly run of
-- `services/payroll-run.service.ts` on the store of `payroll.store.ts`.
pub mod Money
pub mod Tax
pub mod Defaults
pub mod Calc
pub mod Store
pub mod Items
pub mod Run
mod Tests
mod CalcTests
