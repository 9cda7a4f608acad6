-- ===== src/Ingest.antt =====
-- src/ingest: the webhook handler's decisions, from a `workflow_job` delivery to a queued request.
pub mod Adopt
pub mod Filter
pub mod Refusal
pub mod JobMatch
pub mod Signature
pub mod WorkflowJob
pub mod Installation
