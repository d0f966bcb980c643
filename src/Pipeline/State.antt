-- ===== src/Pipeline/State.antt =====
-- app/infra/memory_pipeline.py: the state of MemoryPipeline, and the ready list.
use kakao_x_termux.Prelude.{
  ℕ, String, Option, none, some, Bool, List, [], ◌∷◌, ◌++◌, ◌||◌, max, min, if◌then◌else◌,
}
use kakao_x_termux.Prelude.Texts.{contains, add}
use kakao_x_termux.Dict.{Dict, lookup}
use kakao_x_termux.Schemas.{BridgeEvent}

-- The two callbacks that the program queues with an event: that of `EventService` and that of
-- `RecoveryService`.
pub data Processor : Type 0 where
  process_queued recover_inserted : Processor

pub record InMemoryEventEnvelope : Type 0 where
  pub event : BridgeEvent
  pub received_monotonic_ns : ℕ
  pub accepted_at : ℕ
  pub trace_id : String
  pub dedupe_key : String
  pub checkpoint_processed : Bool
  pub processor : Processor

pub record PipelineStats : Type 0 where
  pub accepted : ℕ
  pub processed : ℕ
  pub duplicate : ℕ
  pub rejected : ℕ
  pub dropped : ℕ
  pub errors : ℕ

pub record Config : Type 0 where
  pub global_limit : ℕ
  pub room_limit : ℕ
  pub max_active_partitions : ℕ
  pub drop_oldest : Bool
  pub dedupe_ttl_ms : ℕ

pub record MemoryPipeline : Type 0 where
  pub config : Config
  pub open config use *
  pub room_queues : Dict (List InMemoryEventEnvelope)
  pub ready_rooms : List String
  pub ready_room_set : List String
  pub active_rooms : List String
  pub dedupe : Dict ℕ
  pub dedupe_order : List (String × ℕ)
  pub queued_total : ℕ
  pub active_total : ℕ
  pub oldest_accepted_at : Option ℕ
  pub stats : PipelineStats

pub data EnqueueResult : Type 0 where
  accepted duplicate partition_limit queue_full room_full writer_full : EnqueueResult

-- `__init__`: a limit below one counts as one.
abbrev pub init : ℕ → ℕ → ℕ → Bool → ℕ → MemoryPipeline
init global_limit room_limit max_active_partitions drop_oldest dedupe_ttl_ms = record {
  config = record {
    global_limit = max global_limit 1;
    room_limit = max room_limit 1;
    max_active_partitions = max max_active_partitions 1;
    drop_oldest = drop_oldest;
    dedupe_ttl_ms = max dedupe_ttl_ms 1;
  };
  room_queues = [];
  ready_rooms = [];
  ready_room_set = [];
  active_rooms = [];
  dedupe = [];
  dedupe_order = [];
  queued_total = 0;
  active_total = 0;
  oldest_accepted_at = none;
  stats = record {
    accepted = 0;
    processed = 0;
    duplicate = 0;
    rejected = 0;
    dropped = 0;
    errors = 0;
  };
}

-- `self._room_queues.get(room)`, and the queue that `setdefault(room, deque())` returns.
abbrev pub queue_or_empty : Option (List InMemoryEventEnvelope) → List InMemoryEventEnvelope
queue_or_empty none = []
queue_or_empty (some q) = q

abbrev pub queue_of : String → MemoryPipeline → List InMemoryEventEnvelope
queue_of room p = queue_or_empty (lookup room p.room_queues)

-- `_mark_room_ready_locked`
unfoldable pub mark_room_ready : String → MemoryPipeline → MemoryPipeline
mark_room_ready room p =
    if contains room p.active_rooms || contains room p.ready_room_set then p else record p {
      ready_rooms = p.ready_rooms ++ room ∷ [];
      ready_room_set = add room p.ready_room_set;
    }

abbrev pub oldest_of : Option ℕ → ℕ → ℕ
oldest_of none at = at
oldest_of (some oldest) at = min oldest at
