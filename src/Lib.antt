-- ===== src/Lib.antt =====
-- kakao-x-termux: a backend that receives chat notifications as events, runs chat bots on them, and sends
-- replies over a bridge. This library models its core: the state that events and replies pass through.
--
-- Parts, by file, and the code that each is about (paths from the root of the repository):
--   Pipeline     app/infra/memory_pipeline.py, MemoryPipeline. State holds the fields, Admission the two critical
--                sections of enqueue_event (admit, commit) and the whole call, Worker those of a worker
--                (next_item, finish), Schedule every interleaving of them. A section is what runs under the lock.
--   Writer       app/infra/memory_pipeline.py, AsyncSqliteWriter: _enqueue, _drain_batch, _run, _write_with_retry
--                and the test of wait_until_idle.
--   ReplyJobs    app/repositories/reply_jobs.py: the table reply_jobs and each statement on it. update_where is
--                an UPDATE with its guard, and its Bool says whether rowcount is 1.
--   Dispatch     app/infra/dispatch_queue.py, DispatchQueue: enqueue and the attempts of _dispatch.
--   Snapshots    app/repositories/chatbot_states.py: the table chatbot_states.
--   StateCache   app/chatbot/state_store.py, MemoryStateCache: State, Evict, Flush and Access (get, put, mutate,
--                delete, remember_clean).
--   StateStore   app/chatbot/state_store.py, BotStateStore, and the state keys in Keys.
--   Messages     app/repositories/messages.py, and in Tokens ReplyTokenCache of app/infra/memory_caches.py; Edits is its
--                changes of a message, Pages its listing with app/services/message_service.py.
--   Send         app/services/send_service.py, handle_send; an inserted job goes to the queue of Dispatch or is
--                dispatched at once.
--   Recovery     app/services/recovery_service.py, _recover_locked, with list_unprocessed_messages of
--                app/repositories/messages.py.
--   Rules        app/rule_engine.py, the answers by room rules.
--   Processor    app/chatbot/processor.py and app/chatbot/decision.py: the choice of the bot that answers; Selection,
--                with app/chatbot/options_cache.py, is the enabled bots and their order.
--   RateLimiter  app/chatbot/reply_rate_limiter.py, wait.
--   Events       app/services/event_service.py: handle_event in each process mode and durability mode.
--   Targets      app/repositories/send_targets.py and app/services/send_target_service.py: the rooms that can be
--                sent to (Query, Listing) and those that a send names (Resolve); Groups is
--                app/repositories/send_groups.py with app/services/send_group_service.py.
--   Batches      app/repositories/send_batches.py, and in Service and Create app/services/send_batch_service.py.
--   ConfigCache  app/infra/memory_caches.py, ConfigCache, with the tables behind it and the calls that write both.
--   Runner       app/infra/external_runner.py, ExternalTaskRunner, as sections in any order.
--   Schemas      app/schemas.py, the data that the parts exchange.
--   Dict, Prelude  dictionaries, sets of texts and lists; Tests applies each result to concrete data.
--
-- How they interact: enqueue_event and delete hand tasks to the writer (Writer.enqueue); a flush of StateCache writes
-- to the writer, or to Snapshots if there is none; StateStore reads through StateCache and falls back on Snapshots;
-- Send inserts into ReplyJobs and fills the queue of Dispatch, whose workers claim and complete jobs in ReplyJobs;
-- Recovery puts stored messages back through enqueue_event and stored jobs into the queue of Dispatch. Events
-- stores an event in Messages and hands it to enqueue_event; Batches resolves its targets by Targets, sends to each
-- through handle_send of Send, and counts its items by their jobs in ReplyJobs.
--
-- Conventions: numbers are natural; each time is an argument, in milliseconds; differences of times are compared as the
-- source compares them, and none goes below 0 where that matters. Sets of texts are lists without repetition. A
-- callback that raises is a Bool, what SQLite or an adapter answers is an argument, and JSON is a data type whose size
-- in bytes is the parameter state_bytes. Loops recurse on their list; evict_loop has the number of entries as fuel,
-- and each round removes one; write_attempts has the three rounds of range(3); dispatch_loop the attempts allowed.
--
-- Three calls that take several sections are one step: Writer.enqueue, Pipeline.Worker.finish and flush_dirty of StateCache.
--
-- Not modelled: threads, condition variables and timeouts beyond the sections above; HTTP routes, settings, migrations
-- and logs; the rows of modules in ConfigCache and its warmup; the bots, their loading and
-- their matchers; full text search; the SQL of the writer's tasks; the preview and the hash of a batch's text, and the pause between two sends; the text of a cursor, which is kept as its parts.
pub mod Batches
pub mod ConfigCache
pub mod Dict
pub mod Dispatch
pub mod Events
pub mod Messages
pub mod Pipeline
pub mod Prelude
pub mod Processor
pub mod RateLimiter
pub mod Recovery
pub mod ReplyJobs
pub mod Rules
pub mod Runner
pub mod Schemas
pub mod Send
pub mod Snapshots
pub mod StateCache
pub mod StateStore
pub mod Targets
pub mod Tests
pub mod Writer
