-- ===== src/Asset.antt =====
-- School assets: apps/api/src/modules/asset. The booking of an asset, and its depreciation.
pub mod Booking
pub mod Depreciation
mod Tests
