-- ===== src/GeoExecutor.antt =====
-- apps/orbit-openeo/src/geo_executor
pub mod Tests
pub mod Spelling
pub mod Registry
pub mod Suggestions
pub mod Evaluator
pub mod Walk
pub mod Totality
pub mod SubGraph
pub mod Apply
pub mod Arrays
pub mod Scalars
pub mod Handlers
pub mod Saving
