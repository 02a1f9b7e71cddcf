-- ===== src/Dispatch.antt =====
-- Matching: the drivers to whom a ride is offered, and who gets it
-- (app_base/modules/ride/application/matching_service.py). `Offers` is the store of offers,
-- `Fleet` the drivers and their vehicles, `Ranking` the order of the candidates, `Matching` the
-- operations. The other children prove what holds of them.
pub mod Offers
pub mod Fleet
pub mod Ranking
pub mod Candidates
pub mod Selection
pub mod Claims
pub mod Won
pub mod Accepted
pub mod Waves
pub mod World
pub mod Acceptance
pub mod Matching
mod Tests
