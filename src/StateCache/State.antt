-- ===== src/StateCache/State.antt =====
-- app/chatbot/state_store.py: the fields of MemoryStateCache, and the persisted side.
use kakao_x_termux.Prelude.{ℕ, String, Option, none, some, Bool, List}
use kakao_x_termux.Dict.{Dict}
use kakao_x_termux.Schemas.{Fields}
use kakao_x_termux.Snapshots.{Table, Snapshot, delete_bot_state}
use kakao_x_termux.Writer.{AsyncSqliteWriter, state_delete, enqueue}

pub record Settings : Type 0 where
  pub enabled : Bool
  pub max_entries : ℕ
  pub flush_interval_ms : ℕ
  pub max_state_bytes : ℕ
  pub state_bytes : Fields → ℕ

pub record MemoryStateEntry : Type 0 where
  pub state_key : String
  pub bot_key : String
  pub room_key : String
  pub sender : Option String
  pub value : Fields
  pub expires_at : Option ℕ
  pub updated_at : ℕ

pub record MemoryStateCacheStats : Type 0 where
  pub hits : ℕ
  pub misses : ℕ
  pub writes : ℕ
  pub flushes : ℕ
  pub evicted : ℕ
  pub rejected : ℕ
  pub failed : ℕ

pub record MemoryStateCache : Type 0 where
  pub entries : Dict MemoryStateEntry
  pub dirty : List String
  pub deleted : List String
  pub last_flush_at : ℕ
  pub stats : MemoryStateCacheStats

-- The cache with what it writes to.
pub record World : Type 0 where
  pub cache : MemoryStateCache
  pub open cache use *
  pub writer : Option AsyncSqliteWriter
  pub table : Table

abbrev pub set_cache : World → MemoryStateCache → World
set_cache w c = record w { cache = c }

-- The metadata that a caller gives with a value.
pub record Meta : Type 0 where
  pub bot_key : String
  pub room_key : String
  pub sender : Option String
  pub expires_at : Option ℕ

abbrev pub entry : String → Fields → Meta → ℕ → MemoryStateEntry
entry key value m now = record {
  state_key = key;
  bot_key = m.bot_key;
  room_key = m.room_key;
  sender = m.sender;
  value = value;
  expires_at = m.expires_at;
  updated_at = now;
}

abbrev pub snapshot_of : MemoryStateEntry → ℕ → Snapshot
snapshot_of e now = record {
  bot_key = e.bot_key;
  room_key = e.room_key;
  sender = e.sender;
  value = e.value;
  expires_at = e.expires_at;
  updated_at = now;
}

-- `_delete_persisted_state`
unfoldable pub delete_persisted : String → World → World
delete_persisted key w = elim w.writer [
  | none ↦ record w { table = delete_bot_state key w.table }
  | some q ↦ record w { writer = some (enqueue (state_delete key) q).0 }
]
