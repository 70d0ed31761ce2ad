-- ===== src/Notification.antt =====
-- app/modules/notifications, app/infra/queues and app/infra/workers: submission, delivery and retry
-- of notifications.
pub mod Model
pub mod Queries
pub mod Claim
pub mod RetryPolicy
pub mod Provider
pub mod Delivery
pub mod Submission
pub mod Routes
pub mod Scheduler
pub mod History
pub mod Lifecycle
pub mod Interleaving
pub mod Backoff
pub mod Outcomes
pub mod LostEnqueue
pub mod ClaimLaws
pub mod Settlement
pub mod Refusal
pub mod Completion
