-- ===== src/Samples.antt =====
-- Small inputs on which the theorems of the other modules are applied, and runs of the definitions.
mod Deadlocks
mod Leases
mod Elections
mod Limits
mod Missions
mod Tasks
mod Votes
mod Waves
mod Workflows
mod Workers
mod Routes
mod Processes
mod Agents
mod Subagents
mod Services
mod Events
mod SwarmTasks
