-- ===== src/Budget.antt =====
-- The inference budget guard: app/gateway/budget_policy.py and app/gateway/budget_guard.py.
pub mod Policy
pub mod Window
pub mod Held
pub mod Invariant
pub mod Expiry
pub mod Admission
pub mod Settlement
pub mod Trace
pub mod Decision
pub mod Guard
pub mod Reservation
pub mod ByStore
pub mod FailClosed
pub mod Backends
pub mod Lifecycle
pub mod Pricing
pub mod Commands
pub mod Scripts
mod Witnesses
