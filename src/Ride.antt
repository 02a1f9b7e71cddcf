-- ===== src/Ride.antt =====
-- Rides (app_base/modules/ride/domain/entities.py): the status machine and the entity that
-- guards it. `Status` has the enumerations and the table of transitions, `Entity` the `Ride`
-- record and `Ride.transition`. The children `Machine`, `Stamps` and `History` prove what holds
-- of every ride that is driven by transitions.
pub mod Status
pub mod Entity
pub mod Machine
pub mod Stamps
pub mod History
mod Tests
