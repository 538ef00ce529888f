-- ===== src/Embed.antt =====
-- src/qbrain/jobs/embedding_queue.cpp: the worker that computes the embeddings of a page.
-- `Tables` has the rows it reads, `Batch` the choice, check and storing of a batch, `Fence` the claim
-- within a transaction, `Execute` the transactions and their loop, `Drain` the loops over the jobs;
-- the other modules hold the proofs.
pub mod Tables
pub mod Batch
pub mod Fence
pub mod Execute
pub mod Steps
pub mod Changes
pub mod Traces
pub mod Rounds
pub mod Stored
pub mod Claimed
pub mod Requests
pub mod Snapshots
pub mod Ready
pub mod Calm
pub mod Completes
pub mod Drain
pub mod Worked
mod Tests
