-- ===== src/Carbon.antt =====
-- app/carbon: the reports of Scope 1, 2 and 3 emissions, their assurance, and the registry.
pub mod Model
pub mod Scopes
pub mod Assurance
pub mod Reports
pub mod Periods
pub mod Market
pub mod Trail
pub mod Steps
pub mod Workflow
pub mod Examples
