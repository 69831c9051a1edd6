-- ===== src/Team/Reviews.antt =====
-- The lead's reviews and the retries: leadReviewAndRetry and buildFailedWorkerReviews of
-- engine/team-execution.ts, leadReviewWorkers, retryWorker and spawnSenior of
-- engine/worker-lifecycle.ts, parseReviews of engine/output-parsing.ts. What the agents answer, when
-- the user stops the session, and what the expressions find in a review are inputs.
pub mod Parts
pub mod Calls
pub mod Cycle
pub mod Cases
pub mod Kept
pub mod Costs
pub mod Limits
pub mod ReadOnly
