-- ===== src/Plant.antt =====
-- Readings of the plants: app/services/physics.py, app/services/live_reading.py and
-- app/optimization/snapshots.py.
pub mod Physics
pub mod Live
pub mod Snapshots
pub mod Sensors
pub mod Examples
