-- ===== src/Gcp.antt =====
-- framework/infrastructure/gcp: the clients of the Google Cloud APIs.
pub mod Api
pub mod Compute
pub mod Iam
pub mod Standard
pub mod Throttled
pub mod NetworkServices
pub mod NetworkSecurity
