-- ===== src/Routes.antt =====
-- The HTTP handlers under app/api/routes, over the modelled parts.
pub mod Outputs
pub mod Stores
pub mod Memory
pub mod Analysis
pub mod Recommendations
pub mod Requests
pub mod Spares
pub mod Effects
pub mod Refinement
pub mod Demo
pub mod Examples
