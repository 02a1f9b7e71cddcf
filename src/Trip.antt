-- ===== src/Trip.antt =====
-- The ride use cases: `RideService` of app_base/modules/ride/application/services.py.
pub mod Entities
pub mod Rides
pub mod Extras
pub mod Money
pub mod Pricing
pub mod Access
pub mod Progress
pub mod Finish
pub mod During
pub mod Request
pub mod Serve
pub mod Sound
pub mod Moves
pub mod Priced
pub mod Rules
pub mod Handled
pub mod Closed
pub mod Kept
pub mod Served
pub mod Codes
pub mod Amounts
pub mod Batches
pub mod Tests
