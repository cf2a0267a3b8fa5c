-- ===== src/Plan.antt =====
-- The installation planner, pkg/database/plan.go.
pub mod Types
pub mod Add
pub mod Grows
pub mod Spec
pub mod Steps
pub mod Selected
pub mod Equations
pub mod Correct
pub mod Total
pub mod Results
pub mod Again
pub mod Build
pub mod Roots
pub mod AddAll
pub mod BuildResults
pub mod Packages
mod Examples
