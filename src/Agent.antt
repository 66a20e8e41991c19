-- ===== src/Agent.antt =====
-- The agent's pipeline: the nodes of agent/nodes/ and the graphs of agent/graphs/.
pub mod State
pub mod Dialect
pub mod ExtractSql
pub mod Generator
pub mod GenerateSql
pub mod Guard
pub mod Voter
pub mod Semantic
pub mod Refiner
pub mod Router
pub mod Graph
pub mod Loop
mod Tests
