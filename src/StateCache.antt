-- ===== src/StateCache.antt =====
-- app/chatbot/state_store.py, class MemoryStateCache: bot states in memory, with the keys that SQLite
-- does not have yet. The cache is modelled with what it calls: the asynchronous writer, where one is
-- given, and the table. The clock, and whether the writer drains in time, are arguments.
pub mod State
pub mod Evict
pub mod Flush
pub mod Access
pub mod Coherence
