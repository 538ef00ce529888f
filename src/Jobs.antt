-- ===== src/Jobs.antt =====
-- include/qbrain/jobs/minions.hpp and src/qbrain/jobs/minions.cpp: the job queue.
-- `Table` has the rows and the meaning of the SQL statements, `Text` the checks on texts, `Queue`,
-- `Replay`, `Tree` and `Hierarchy` the operations; the other modules prove what they promise.
pub mod Table
pub mod Text
pub mod Queue
pub mod Replay
pub mod Tree
pub mod Hierarchy
pub mod Rows
pub mod Invariant
pub mod Calls
pub mod Cases
pub mod Preserved
pub mod History
pub mod Completed
pub mod ById
pub mod Ended
pub mod Fence
pub mod Claim
pub mod Aggregate
pub mod Cancel
pub mod Spawn
pub mod Display
pub mod Messages
pub mod Tests
