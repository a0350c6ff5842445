-- ===== src/Finance.antt =====
-- Finance: the calculators of apps/api/src/modules/finance/calculator. Money is in hundredths, as
-- in Payroll/Money.
pub mod Allocation
pub mod Invoice
pub mod LateFee
pub mod Match
pub mod Payment
mod PaymentTests
mod Tests
