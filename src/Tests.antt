-- ===== src/Tests.antt =====
-- Concrete runs of the components, each the theorem of its name at one input.
mod Tasks
mod Plans
mod Contexts
mod Policies
mod Calls
mod Workflows
mod Decisions
mod Intakes
