-- ===== src/Lib.antt =====
-- Verification library of qbrain: its background job queue and the worker for embeddings, the text
-- handling that the queue and the user interfaces share, the token authentication of its server,
-- the parser of image headers, the chunker of pages, its cost reports, the selection of search
-- results, the walk over the links of pages, and the arguments of the search command. Paths are
-- those of the repository.
--
-- The program keeps its jobs in the SQLite table `jobs` (include/qbrain/storage/schema_sql.hpp).
-- src/qbrain/jobs/minions.cpp, declared in include/qbrain/jobs/minions.hpp, is the queue: callers
-- submit jobs, workers claim, complete and fail them under a lock token, operators cancel, pause,
-- resume, retry and replay them, and a parent job spawns children and aggregates their outcomes.
-- include/qbrain/util/utf8_display.hpp validates UTF-8 and makes bounded display copies; the queue
-- has a scanner of its own for the same purpose.
--
-- Jobs/Table: the rows and the statements on them. A table is the list of its rows by ascending id;
--   `update`, `insert` and `select_id` are UPDATE, INSERT and SELECT by id, and the number of
--   selected rows is `changes()`. A statement or a transaction is one atomic change of the `Brain`.
-- Jobs/Text: the text checks of minions.cpp (`utf8_sequence_length`, `is_valid_message_sender`,
--   `canonical_message_payload`, `bounded_utf8`, `safe_progress_error`, ...).
-- Jobs/Queue: the operations on single jobs (`submit_job`, `claim_job`, `complete_job`, `fail_job`,
--   `cancel_job`, `retry_job`, `pause_job`, `resume_job`, `reclaim_stalled`). `claim_job` is split
--   where the program releases its lock: `claim_selected` is the conditional write after the
--   SELECT. Jobs/Replay: `replay_job_checked`, `list_jobs` and `get_job_progress`.
-- Jobs/Tree: the operations on parents and children (`spawn_children`, `compute_aggregate_json`,
--   `aggregate_if_ready`, `try_begin_aggregation`). An aggregation is split into its statements:
--   its reads come before BEGIN IMMEDIATE, and a function says what other connections write before
--   each read and before the transaction. Jobs/Hierarchy: `get_job_hierarchy`, `cancel_job_tree`
--   and `retry_job_hierarchy`. The reads that these operations and the other ones (`claim_job`,
--   `spawn_children`, `replay_job_checked`) do before their write are in one step with it.
-- Jobs/Calls: the calls that change the tables as data, and their runs in any order by any number
--   of workers; an aggregation is its transaction there, with any text. Jobs/Rows, Invariant,
--   Cases, Preserved, History, Completed, ById, Ended, Fence, Claim, Aggregate, Cancel, Spawn and
--   Display hold the proofs.
-- Embed: the worker that embeds the chunks of a page (src/qbrain/jobs/embedding_queue.cpp).
--   Embed/Tables has the rows of `pages` and `content_chunks` beside the queue, Embed/Batch the
--   choice, check and storing of a batch, Embed/Fence the fence of the claim and the record of
--   progress, Embed/Execute `execute_embedding_job`, Embed/Drain the loops over the jobs
--   (`drain_embedding_jobs`, and `process_one` and `drain_jobs` of minions.cpp). A transaction is
--   one step that reads the clock once and has no effect when it throws; before each one others may
--   change the tables, by a function that the `Moment` holds. The `for` loop takes fuel: the
--   highest id of a chunk of the page and one more is enough, as Embed/Rounds shows. The provider
--   and the JSON library are the parameter `Host`, and `Services` adds
--   `Brain::extract_facts_from_page`; a float is its 32-bit pattern. The other files of Embed hold
--   the proofs.
-- Utf8: the display helpers (`utf8_scalar_size`, `valid_utf8`, `utf8_excerpt`); Utf8/Scalars,
--   Valid, Mask, Back, Excerpt and Prefix hold the proofs.
-- Jobs/Messages: `send_job_message_checked`, `list_job_messages_checked` and `count_jobs`;
--   Jobs/Messages/Sent holds the proofs.
-- Mcp: the token authentication of the HTTP server (src/qbrain/mcp/auth.cpp): the configuration of
--   scoped tokens (`parse_scoped_tokens`), `constant_time_equal` and `authenticate_bearer`;
--   Mcp/Equal, Bearer and Entries hold the proofs.
-- Strings: the text helpers of src/qbrain/util/string_util.cpp (`trim`, `split`, `slugify`,
--   `replace_all`, ...); Strings/Laws holds the proofs.
-- Chunker: `chunk_markdown` of src/qbrain/ingest/chunker.cpp; Chunker/Chunks, Blocks and Cover hold
--   the proofs.
-- Files: the PNG and JPEG header parsers of src/qbrain/files/image_meta.cpp (`parse_image_meta`). A
--   read outside of the buffer is `none`. The bounds on chunks and markers are what the recursion
--   counts down, so no further fuel is needed. Files/Mime is `sniff_mime`;
--   Files/Signature, Media, Png and Sniff hold the proofs.
-- Accounting: the cost reports of include/qbrain/accounting/token_cost.hpp. A function that may
--   throw returns `Checked`. Accounting is the arithmetic, Accounting/Input the reading of the
--   input (`exact`, `id`, `integer`, `amounts`), Accounting/Pricing the loop over the buckets of a
--   call and `Aggregate::include`, Accounting/Report is `report` and `parse_report`,
--   Accounting/Usage is `openai_usage` of include/qbrain/accounting/provider_usage.hpp; the other
--   files hold the proofs. A `std::map` is the list of its entries by ascending key.
-- Search: `result_identity` and the class `ExactPageTopK` of
--   include/qbrain/search/detail/exact_topk.hpp, over any type of hits with a page identity and the
--   two comparisons, and `top_k` for those of the program. Search/Ranking is the abstract view, the
--   ranking of all pages by their best hit without a limit; Search/Hits has the laws of the
--   comparisons, Search/Selection and Shown the results, the other files the steps. A double is
--   its place in the order of the finite ones. An iterator of the index by page stands for the hit
--   that it points to, and an element of the ordered set is erased by its page.
-- Graph: `neighbors` of src/qbrain/graph/traverse.cpp with the queries `get_links_from` and
--   `get_links_to` and `canonical_source_id` of src/qbrain/core/brain.cpp, on the list of the rows
--   of the table `links`. The `while` loop has one round of fuel for the start and one for each end
--   of a link, since a page is queued once; Graph/Walks shows that this is enough. Graph/Work,
--   Levels and Complete hold the other proofs.
-- Cli: `parse_search_arguments` of include/qbrain/cli/search_arguments.hpp; the sets and the map of
--   the parser are lists in the order of entry. Each round of the loop takes an argument, so their
--   number is enough fuel, as Cli/Rounds shows; Cli/Query, Scanned and Parsed hold
--   the other proofs.
-- Prelude: lists, texts, integers and tests over native numbers that all parts share.
--
-- Texts are lists of bytes. A time is a number of seconds, in the order of the program's UTC texts,
-- and each operation takes the time that it reads. An id is a natural number; 0 stands for every
-- id that is not positive. The 64-bit counters are taken not to overflow. The loops over texts have
-- the length of the text as fuel: each round takes at least one byte off.
--
-- The JSON library (third_party/nlohmann) is the parameter `Json`: its canonical form of a text,
-- and the objects that the queue prints; `none` is an exception.
-- The hash of the audit prefix (src/qbrain/util/hash.cpp) is an argument of the authentication.
-- Not modelled: SQLite and its errors, busy waiting, the network and model calls of the job
-- handlers, and the other subsystems (storage backends, code intelligence, memory, the fusion of
-- search rankings, graph analytics, servers).
pub mod Prelude
pub mod Utf8
pub mod Jobs
pub mod Mcp
pub mod Files
pub mod Strings
pub mod Chunker
pub mod Accounting
pub mod Search
pub mod Graph
pub mod Embed
pub mod Cli
