-- ===== src/Tenancy.antt =====
-- The tenants of app/gateway: their policies (tenant_policy.py) and quotas (tenant.py).
pub mod Policy
pub mod Quota
pub mod Commands
pub mod Scripts
mod Witnesses
