-- ===== src/Pipeline/Dedupe.antt =====
-- How long an event id is remembered.
use kakao_x_termux.Prelude.{
  ℕ, ◌+◌, ◌-◌, ◌≤◌, ◌≡◌, ◌≢◌, refl, sym, ap, ◌∙◌, String, some, Bool, List, [], ◌∷◌, arith, ◌==◌,
  eq_iff, eq_refl, Bool-cases, inl, inr, is_some, ◌&&◌, not, leb, if_both,
}
use kakao_x_termux.Dict.{Dict, lookup, lookup-remove, lookup-insert}
use kakao_x_termux.Schemas.{BridgeEvent}
use kakao_x_termux.Writer.{AsyncSqliteWriter}
use kakao_x_termux.Pipeline.State.{
  InMemoryEventEnvelope, MemoryPipeline, EnqueueResult, accepted, duplicate, queue_of,
  mark_room_ready,
}
use kakao_x_termux.Pipeline.Admission.{
  admit, commit, forget, evict_dedupe, evict, reject_duplicate, known_room, active_partitions,
  enqueue_event, EnqueueCall, envelope_of, after_admit,
}
use kakao_x_termux.Pipeline.Worker.{next_item, finish, take_ready, take_head}

-- Forgetting an entry with another time than the last keeps the id.
forget_keeps :
    (k j : String) (t at : ℕ) (d : Dict ℕ)
    → lookup k d ≡ some t
    → ((k ≡ j) → at ≢ t)
    → lookup k (forget j at d) ≡ some t
forget_keeps k j t at d h ne = elim (Bool-cases (j == k)) [
  | inl e ↦
      let same : j ≡ k = ground (arith, eq_iff j k) in
      let found : lookup j d ≡ some t = ap (λ x. lookup x d) same ∙ h in
      let differs : at ≢ t = ne (sym same) in rw (found, forget) (ground arith)
  | inr e ↦ ground (arith, lookup-remove j k d)
]

-- An id that was accepted at `t` is still known at any time up to `t + ttl`.
evict_dedupe_keeps :
    (k : String) (t current ttl : ℕ) (d : Dict ℕ) (order : List (String × ℕ))
    → lookup k d ≡ some t
    → current ≤ t + ttl
    → lookup k (evict_dedupe current ttl d order).0 ≡ some t
unfolding evict_dedupe
evict_dedupe_keeps k t current ttl d [] h fresh = h
evict_dedupe_keeps k t current ttl d ((j, at) ∷ order) h fresh =
    elim (Bool-cases (leb (current - at) ttl)) [
      | inl stop ↦ rw stop h
      | inr old ↦ rw old (
          evict_dedupe_keeps k t current ttl (forget j at d) order
            (forget_keeps k j t at d h (λ _ e. ground arith)) fresh)
    ]

-- The id is known with the time `t`, and the configuration says how long.
abbrev pub Knows : String → ℕ → ℕ → MemoryPipeline → Type 0
Knows k t ttl p = (lookup k p.dedupe ≡ some t) × (p.dedupe_ttl_ms ≡ ttl)

-- A whole call, or a section of a worker.
pub data Action : Type 0 where
  enqueues : EnqueueCall → Action
  takes : Action
  finishes : String → Bool → Action

unfoldable pub act :
    Action → MemoryPipeline × AsyncSqliteWriter → MemoryPipeline × AsyncSqliteWriter
act (enqueues c) (p, w) = let r = enqueue_event c p w in (r.0, r.2)
act takes (p, w) = ((next_item p).0, w)
act (finishes room returned) (p, w) = (finish room returned p, w)

unfoldable pub act_all :
    List Action → MemoryPipeline × AsyncSqliteWriter → MemoryPipeline × AsyncSqliteWriter
act_all [] s = s
act_all (a ∷ rest) s = act_all rest (act a s)

-- The actions of a list read the clock at `deadline` at the latest.
abbrev pub Until : ℕ → List Action → Type 0
Until deadline [] = Unit {0}
Until deadline (enqueues c ∷ rest) = (c.now ≤ deadline) × Until deadline rest
Until deadline (a ∷ rest) = Until deadline rest

module _ (k : String) (t ttl : ℕ) where
  evict-Knows :
      (now : ℕ) (p : MemoryPipeline) → now ≤ t + ttl → Knows k t ttl p → Knows k t ttl (evict now p)
  evict-Knows now p fresh h =
      (evict_dedupe_keeps k t now p.dedupe_ttl_ms p.dedupe p.dedupe_order h.0 (omega arith), h.1)

  duplicate_admit :
      (event : BridgeEvent) (now : ℕ) (p : MemoryPipeline)
      → event.event_id ≡ k
      → now ≤ t + ttl
      → Knows k t ttl p
      → admit event now p ≡ (reject_duplicate (evict now p), duplicate)
  unfolding admit
  duplicate_admit event now p same fresh h = rw (same, (evict-Knows now p fresh h).0)

  abbrev OtherKnows : MemoryPipeline × EnqueueResult → Type 0
  OtherKnows r = Knows k t ttl r.0

  admit-Knows :
      (event : BridgeEvent) (now : ℕ) (p : MemoryPipeline)
      → now ≤ t + ttl
      → Knows k t ttl p
      → Knows k t ttl (admit event now p).0
  unfolding admit
  admit-Knows event now p0 fresh h =
      let p = evict now p0 in
      let u = evict-Knows now p0 fresh h in
      if_both OtherKnows (is_some (lookup event.event_id p.dedupe)) _ _ u (
        if_both OtherKnows
          (not (known_room event.room_key p) && leb p.max_active_partitions (active_partitions p)) _
          _ u (ground arith))

  commit-Knows :
      (e : InMemoryEventEnvelope) (p : MemoryPipeline)
      → e.dedupe_key ≢ k
      → Knows k t ttl p
      → Knows k t ttl (commit e p)
  unfolding commit mark_room_ready
  commit-Knows e p ne h =
      ground (arith, lookup-insert e.dedupe_key k e.accepted_at p.dedupe, eq_iff e.dedupe_key k)

  after_admit-Knows :
      (c : EnqueueCall) (p : MemoryPipeline) (r : EnqueueResult) (w : AsyncSqliteWriter)
      → c.event.event_id ≢ k
      → Knows k t ttl p
      → Knows k t ttl (after_admit c p r w).0
  after_admit-Knows c p accepted w ne h = ground (arith, commit-Knows (envelope_of c) p ne h)
  after_admit-Knows c p _ w ne h = h

  enqueue-Knows :
      (c : EnqueueCall) (p : MemoryPipeline) (w : AsyncSqliteWriter)
      → c.now ≤ t + ttl
      → Knows k t ttl p
      → Knows k t ttl (enqueue_event c p w).0
  unfolding enqueue_event
  enqueue-Knows c p w fresh h = elim (Bool-cases (c.event.event_id == k)) [
    | inl e ↦
        rw (duplicate_admit c.event c.now p ((eq_iff _ _).0 e) fresh h)
          (evict-Knows c.now p fresh h)
    | inr ne ↦
        after_admit-Knows c (admit c.event c.now p).0 (admit c.event c.now p).1 w
          (ground (arith, eq_iff c.event.event_id k)) (admit-Knows c.event c.now p fresh h)
  ]

  take_head-Knows :
      (room : String) (q : List InMemoryEventEnvelope) (p : MemoryPipeline)
      → Knows k t ttl p
      → Knows k t ttl (take_head room q p).0
  take_head-Knows room [] p h = h
  take_head-Knows room (x ∷ xs) p h = h

  take_ready-Knows :
      (ready : List String) (p : MemoryPipeline)
      → Knows k t ttl p
      → Knows k t ttl (take_ready ready p).0
  take_ready-Knows [] p h = h
  take_ready-Knows (room ∷ rest) p h = take_head-Knows room (queue_of room p) _ h

  act_all-Knows :
      (actions : List Action) (p : MemoryPipeline) (w : AsyncSqliteWriter)
      → Until (t + ttl) actions
      → Knows k t ttl p
      → Knows k t ttl (act_all actions (p, w)).0
  unfolding act_all act
  act_all-Knows [] p w fresh h = h
  act_all-Knows (enqueues c ∷ rest) p w fresh h =
      act_all-Knows rest _ _ fresh.1 (enqueue-Knows c p w fresh.0 h)
  act_all-Knows (takes ∷ rest) p w fresh h =
      act_all-Knows rest _ w fresh (unfold next_item in take_ready-Knows p.ready_rooms p h)
  act_all-Knows (finishes room returned ∷ rest) p w fresh h =
      act_all-Knows rest _ w fresh (unfold finish mark_room_ready in ground arith)

accepted-Knows :
    (c : EnqueueCall) (p : MemoryPipeline) (r : EnqueueResult) (w : AsyncSqliteWriter)
    → (after_admit c p r w).1 ≡ accepted
    → Knows c.event.event_id c.now p.dedupe_ttl_ms (after_admit c p r w).0
unfolding commit mark_room_ready
accepted-Knows c p accepted w e = ground (
  arith,
  lookup-insert c.event.event_id c.event.event_id c.now p.dedupe,
  eq_refl c.event.event_id,
)
accepted-Knows c p r w e = cc

abbrev SameTtl : ℕ → MemoryPipeline × EnqueueResult → Type 0
SameTtl ttl r = r.0.dedupe_ttl_ms ≡ ttl

admit_ttl :
    (event : BridgeEvent) (now : ℕ) (p : MemoryPipeline)
    → (admit event now p).0.dedupe_ttl_ms ≡ p.dedupe_ttl_ms
unfolding admit
admit_ttl event now p0 =
    let p = evict now p0 in
    if_both (SameTtl p0.dedupe_ttl_ms) (is_some (lookup event.event_id p.dedupe)) _ _ refl (
      if_both (SameTtl p0.dedupe_ttl_ms)
        (not (known_room event.room_key p) && leb p.max_active_partitions (active_partitions p)) _ _
        refl (ground arith))

-- Once a call of `enqueue_event` has been accepted, another event with the same id is refused as a
-- duplicate until the id's time to live is over, whatever calls and worker sections come between,
-- when no two calls overlap and none of them reads a later time. The refused call counts the
-- duplicate, forgets what has expired, and leaves the writer alone.
pub duplicate_refused :
    (c again : EnqueueCall) (p : MemoryPipeline) (w : AsyncSqliteWriter) (between : List Action)
    → (enqueue_event c p w).1 ≡ accepted
    → Until (c.now + p.dedupe_ttl_ms) between
    → again.event.event_id ≡ c.event.event_id
    → again.now ≤ c.now + p.dedupe_ttl_ms
    → let first = enqueue_event c p w in
      let s = act_all between (first.0, first.2) in
      enqueue_event again s.0 s.1 ≡ (reject_duplicate (evict again.now s.0), duplicate, s.1)
unfolding enqueue_event
duplicate_refused c again p w between ok fresh same now =
    let k = c.event.event_id in
    let first = enqueue_event c p w in
    let r = admit c.event c.now p in
    let known : Knows k c.now p.dedupe_ttl_ms first.0 =
      let h = accepted-Knows c r.0 r.1 w ok in (h.0, h.1 ∙ admit_ttl c.event c.now p) in
    let later = act_all-Knows k c.now p.dedupe_ttl_ms between first.0 first.2 fresh known in
    rw (
      duplicate_admit k c.now p.dedupe_ttl_ms again.event again.now
        (act_all between (first.0, first.2)).0 same now later)
