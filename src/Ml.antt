-- ===== src/Ml.antt =====
-- app/ml: predictions of energy and carbon, and the models that they are served from.
pub mod Model
pub mod Registry
pub mod Calibrate
pub mod Dataset
pub mod Learning
pub mod Train
pub mod Trust
pub mod Trainer
pub mod Features
pub mod Serve
pub mod Simulate
pub mod Api
mod Examples
