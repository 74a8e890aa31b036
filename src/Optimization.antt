-- ===== src/Optimization.antt =====
-- app/optimization: setpoint advice, its way through the operators' workflow, and its application.
pub mod Model
pub mod Engine
pub mod Store
pub mod Apply
pub mod Impact
pub mod Trail
pub mod Steps
pub mod Workflow
pub mod Examples
