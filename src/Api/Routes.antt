-- ===== src/Api/Routes.antt =====
-- The routes of the data plane in app/api, each as the plan of its handler.
pub mod Paths
pub mod Jobs
pub mod Rest
pub mod Other
pub mod Resources
