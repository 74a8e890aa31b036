-- ===== src/Routes/Demo.antt =====
-- app/api/routes/optimization.py on the demo memory.
pub mod Unrecorded
pub mod Evolves
pub mod Workflow
