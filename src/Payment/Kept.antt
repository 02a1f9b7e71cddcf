-- ===== src/Payment/Kept.antt =====
-- Every use case of app_base/modules/payment keeps what the repository's methods keep.
pub mod Rows
pub mod Settled
pub mod Paid
pub mod Called
pub mod Swept
