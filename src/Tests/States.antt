-- ===== src/Tests/States.antt =====
-- Bot states on concrete entries.
use kakao_x_termux.Prelude.{
  ℕ, ◌≤◌, ◌≡◌, ◌⊎◌, refl, none, some, true, false, List, [], ◌∷◌, length, max, arith, ◌==◌, eq_iff,
  Bool-cases, inl, inr,
}
use kakao_x_termux.Prelude.Texts.{contains}
use kakao_x_termux.Dict.{lookup}
use kakao_x_termux.Schemas.{Fields, end, field, number}
use kakao_x_termux.Writer.{fresh}
use kakao_x_termux.Snapshots.{Snapshot, Table}
use kakao_x_termux.StateCache.State.{Settings, Meta, MemoryStateCache, World, entry}
use kakao_x_termux.StateCache.Evict.{evict_if_needed, all_dirty, evict_if_needed_lem}
use kakao_x_termux.StateCache.Coherence.{
  IsCoherent, CacheCall, gets, puts, mutates, deletes, flushes, call_all,
}
use kakao_x_termux.StateStore.Stored.{InTable}
use kakao_x_termux.StateStore.Waiting.{call_all-Stored}
use kakao_x_termux.StateStore.{WriteArgs, get, set, mutate, delete}
use kakao_x_termux.StateStore.Keys.{parse_state_key, make_key, has_bar, parse_state_key-make_key}
use kakao_x_termux.StateStore.Reads.{get-set}
use kakao_x_termux.StateStore.Deletes.{mutate-delete}

abbrev settings : Settings
settings = record {
  enabled = true;
  max_entries = 1;
  flush_interval_ms = 100;
  max_state_bytes = 10;
  state_bytes = λ fields. 4;
}

abbrev empty_cache : MemoryStateCache
empty_cache = record {
  entries = [];
  dirty = [];
  deleted = [];
  last_flush_at = 0;
  stats = record {
    hits = 0;
    misses = 0;
    writes = 0;
    flushes = 0;
    evicted = 0;
    rejected = 0;
    failed = 0;
  };
}

abbrev counter : ℕ → Fields
counter n = field "count" (number n) end

abbrev row : Snapshot
row = record {
  bot_key = "bot";
  room_key = "r";
  sender = none;
  value = counter 1;
  expires_at = some 500;
  updated_at = 5;
}

abbrev table : Table
table = ("k", row) ∷ ("old", record row { expires_at = some 7 }) ∷ []

-- States go to the table directly, or through the writer.
abbrev direct : World
direct = record { cache = empty_cache; writer = none; table = table }

abbrev queued : World
queued = record { cache = empty_cache; writer = some (fresh 4 2 false); table = table }

empty-IsCoherent : IsCoherent direct
unfolding lookup contains
empty-IsCoherent = record { keyed = λ k. _; unsaved = λ k h. ground (arith, h) }

abbrev args : WriteArgs
args = record { ttl_millis = some 60; bot_key = none; room_key = none; sender = none }

get-set_example :
    (get settings "k" end 20 (set settings "k" (counter 2) args 10 direct)).1 ≡ counter 2
get-set_example =
    get-set settings "k" (counter 2) end args 10 20 direct refl refl refl empty-IsCoherent refl

abbrev meta : Meta
meta = record { bot_key = "bot"; room_key = "r"; sender = none; expires_at = none }

abbrev cache_calls : List (ℕ × CacheCall)
cache_calls =
    (10, gets "k")
    ∷ (11, puts "j" (counter 3) meta)
    ∷ (12, mutates "k" (λ f. counter 4) meta)
    ∷ (13, deletes "j")
    ∷ (14, flushes true true)
    ∷ []

-- The key "p" has an unsaved change, and the calls are about others.
abbrev unsaved : World
unsaved = record direct {
  cache = record empty_cache {
    entries = ("p", entry "p" (counter 8) meta 1) ∷ [];
    dirty = "p" ∷ [];
  };
}

unsaved-IsCoherent : IsCoherent unsaved
unfolding lookup contains
unsaved-IsCoherent = record {
  keyed = λ k. elim (Bool-cases ("p" == k)) [
    | inl same ↦ rw same ((eq_iff "p" k).0 same)
    | inr other ↦ rw other tt
  ];
  unsaved = λ k h. ground (arith, h);
}

call_all-Stored_example :
    let w' = call_all settings cache_calls unsaved in
    IsCoherent w'
    × (((lookup "p" w'.entries ≡ some (entry "p" (counter 8) meta 1))
          × (contains "p" w'.dirty ≡ true))
        ⊎ InTable "p" (entry "p" (counter 8) meta 1) w')
unfolding lookup contains
call_all-Stored_example =
    call_all-Stored settings "p" (entry "p" (counter 8) meta 1) cache_calls unsaved refl refl refl
      refl refl unsaved-IsCoherent

-- Three entries, of which the second is unsaved.
abbrev crowded : MemoryStateCache
crowded = record empty_cache {
  entries =
      ("a", entry "a" end meta 1) ∷ ("b", entry "b" end meta 2) ∷ ("c", entry "c" end meta 3) ∷ [];
  dirty = "b" ∷ [];
}

evict_if_needed_lem_example :
    let c = evict_if_needed 1 crowded in
    ((length c.entries ≤ max 1 1) ⊎ (all_dirty c.dirty c.entries ≡ true))
    × ((lookup "b" c.entries ≡ lookup "b" crowded.entries) ⊎ (contains "b" crowded.dirty ≡ false))
evict_if_needed_lem_example = evict_if_needed_lem 1 crowded "b"

parse_state_key-make_key_example :
    parse_state_key (make_key "bot" "r" (some "kim") "vote|1")
    ≡ record { bot_key = "bot"; room_key = "r"; sender = some "kim"; scope = "vote|1" }
unfolding has_bar
parse_state_key-make_key_example =
    parse_state_key-make_key "bot" "r" (some "kim") "vote|1" refl refl refl

mutate-delete_example : (mutate settings "k" (λ f. f) args 20 (delete "k" queued)).1 ≡ counter 1
unfolding lookup
mutate-delete_example =
    mutate-delete settings "k" (λ f. f) args 20 queued (fresh 4 2 false) row refl refl refl refl
      refl
