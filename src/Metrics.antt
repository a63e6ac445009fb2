-- ===== src/Metrics.antt =====
-- pkg/metrics: scraped metrics become data points, which a store keeps, rolls up and hands out.
pub mod Points
pub mod Tests
pub mod Sets
pub mod Parser
pub mod Store
pub mod View
pub mod Manager
