-- ===== src/Team.antt =====
-- A step of a team, engine/team-execution.ts and engine/worker-lifecycle.ts, with
-- engine/review-mode.ts: the names of workers, the workers that a lead may start, their results, the
-- lead's reviews with the retries, and the result of the team.
pub mod Names
pub mod ReviewMode
pub mod Data
pub mod Gates
pub mod Workers
pub mod Reviews
pub mod Step
pub mod Parallel
mod Tests
