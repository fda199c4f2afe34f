-- ===== src/Tests.antt =====
-- Runs of the definitions on small inputs, and the results applied to them.
mod State
mod Memory
mod Tiers
pub mod Engine
mod Builder
pub mod Resilience
mod Access
mod Costs
pub mod Agents
mod Thoughts
mod Reviews
mod Services
mod Routing
