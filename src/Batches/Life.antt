-- ===== src/Batches/Life.antt =====
-- The status of a batch over its life, whatever calls of the service follow.
use kakao_x_termux.Prelude.{
  ℕ, suc, ◌≡◌, refl, ap, ◌∙◌, String, Option, none, some, true, List, [], ◌∷◌, ◌==◌, arith, eq_iff,
  Bool-cases, Option-cases, inl, inr, if_both, not, ◌&&◌, is_empty, keep_if,
}
use kakao_x_termux.Dict.{Dict, insert, lookup, lookup-insert}
use kakao_x_termux.Schemas.{Json}
use kakao_x_termux.Send.{Surroundings, SendState, SendResponse, handle_send}
use kakao_x_termux.Targets.Resolve.{ResolvedTarget, TargetResolution, resolve_target_spec}
use kakao_x_termux.Batches.{
  SendBatchStatus, SendBatchItemStatus, is_final, Counts, BatchTables, ItemCursor, get_send_batch,
  insert_send_batch, insert_send_batch_item,
}
use kakao_x_termux.Batches.Service.{
  BatchState, Result, error, ok, SendBatchResponse, get_batch_summary, list_batch_items,
  cancel_batch, listed,
}
use kakao_x_termux.Batches.{SendBatch}
use kakao_x_termux.Batches.Create.{
  SendBatchRequest, BatchEnv, send_request, after_send, dispatch_targets, persist_preview_items,
  insert_batch_row, fill_batch, finish_batch, store_batch, create_batch, retry_failed,
  retry_request, has_failed, summary_of, over_max,
}
use kakao_x_termux.Batches.Status.{Stands, refresh-Stands, cancel-Stands}

item-batches :
    (batch_id room_key room : String) (job_id : Option String) (status : SendBatchItemStatus)
    (reason : Option String) (now : ℕ) (t : BatchTables)
    → (insert_send_batch_item batch_id room_key room job_id status reason now t).batches ≡ t.batches
unfolding insert_send_batch_item
item-batches batch_id room_key room job_id status reason now t = ground arith

persist-batches :
    (batch_id : String) (now : ℕ) (ts : List ResolvedTarget) (t : BatchTables)
    → (persist_preview_items batch_id now ts t).batches ≡ t.batches
unfolding persist_preview_items
persist-batches batch_id now [] t = refl
persist-batches batch_id now (x ∷ ts) t =
    persist-batches batch_id now ts _ ∙ item-batches batch_id x.room_key x.room none _ _ now t

after_send-batches :
    (batch_id : String) (x : ResolvedTarget) (now : ℕ) (out : SendState × Option SendResponse)
    (s : BatchState)
    → (after_send batch_id x now out s).0.tables.batches ≡ s.tables.batches
after_send-batches batch_id x now (sent, none) s = refl
after_send-batches batch_id x now (sent, some r) s =
    item-batches batch_id x.room_key x.room (some r.job_id) _ r.error now s.tables

dispatch-batches :
    (batch_id : String) (q : SendBatchRequest) (sends : ℕ → Surroundings) (n : ℕ)
    (ts : List ResolvedTarget) (s : BatchState)
    → (dispatch_targets batch_id q sends n ts s).0.tables.batches ≡ s.tables.batches
unfolding dispatch_targets
dispatch-batches batch_id q sends n [] s = refl
dispatch-batches batch_id q sends n (x ∷ ts) s =
    let r =
      after_send batch_id x (sends n).now (handle_send (sends n) (send_request batch_id q x) s.send)
        s in
    let one =
      after_send-batches batch_id x (sends n).now
        (handle_send (sends n) (send_request batch_id q x) s.send) s in
    let rest = dispatch-batches batch_id q sends (suc n) ts r.0 in
    elim (Bool-cases r.1) [ inl e ↦ rw e (rest ∙ one) | inr e ↦ rw e one ]

-- Tables with the same batches.
Stands-same :
    (j : String) (status : SendBatchStatus) (t t' : BatchTables)
    → t'.batches ≡ t.batches
    → Stands j status t
    → Stands j status t'
unfolding get_send_batch
Stands-same j status t t' h (b, found, e) = (b, ap (lookup j) h ∙ found, e)

abbrev Created : String → SendBatchStatus → BatchState × Result SendBatchResponse → Type 0
Created j status r = Stands j status r.0.tables

abbrev Retried : String → SendBatchStatus → BatchState × Result SendBatch → Type 0
Retried j status r = Stands j status r.0.tables

beside :
    (k j : String) (new b : SendBatch) (d : Dict SendBatch)
    → lookup k d ≡ none
    → lookup j d ≡ some b
    → lookup j (insert k new d) ≡ some b
beside k j new b d absent found = ground (arith, lookup-insert k j new d, eq_iff k j, absent, found)

abbrev StandsIf : String → SendBatchStatus → Option BatchTables → Type 0
StandsIf j status none = Unit
StandsIf j status (some t) = Stands j status t

-- A new batch has an id that no batch had.
insert-Stands :
    (j : String) (status : SendBatchStatus) (k target_type : String) (target_json : Json)
    (hash preview : String) (first : SendBatchStatus) (n : ℕ) (c : Counts) (now : ℕ)
    (t : BatchTables)
    → Stands j status t
    → StandsIf j status (insert_send_batch k target_type target_json hash preview first n c now t)
unfolding insert_send_batch get_send_batch
insert-Stands j status k target_type target_json hash preview first n c now t (b, found, e) =
    elim (Option-cases (lookup k t.batches)) [
      | inr (x, a) ↦ rw (a, insert_send_batch) tt
      | inl a ↦ rw (a, insert_send_batch) (b, beside k j _ b t.batches a found, e)
    ]

module _ (j : String) (status : SendBatchStatus) (done : is_final status ≡ true) where
  finish-Stands :
      (e : BatchEnv) (s : BatchState)
      → Stands j status s.tables
      → Created j status (finish_batch e s)
  finish-Stands e s h = refresh-Stands j status done e.new_batch_id s.send.db e.now s.tables h

  fill-Stands :
      (e : BatchEnv) (q : SendBatchRequest) (ts : List ResolvedTarget) (s : BatchState)
      → Stands j status s.tables
      → Created j status (fill_batch e q ts s)
  unfolding fill_batch
  fill-Stands e q ts s h =
      let sent = dispatch_targets e.new_batch_id q e.sends 0 ts s in
      let kept =
        Stands-same j status s.tables sent.0.tables
          (dispatch-batches e.new_batch_id q e.sends 0 ts s) h in
      if_both (Created j status) q.dry_run _ _
        (finish-Stands e
          (record s { tables = persist_preview_items e.new_batch_id e.now ts s.tables })
          (Stands-same j status s.tables (persist_preview_items e.new_batch_id e.now ts s.tables)
            (persist-batches e.new_batch_id e.now ts s.tables) h))
        (if_both (Created j status) sent.1 _ _ (finish-Stands e sent.0 kept) kept)

  row-Stands :
      (e : BatchEnv) (q : SendBatchRequest) (r : TargetResolution) (s : BatchState)
      → Stands j status s.tables
      → StandsIf j status (insert_batch_row e q r s.tables)
  unfolding insert_batch_row
  row-Stands e q r s h = insert-Stands j status e.new_batch_id _ _ _ _ _ _ _ e.now s.tables h

  store-Stands :
      (e : BatchEnv) (q : SendBatchRequest) (r : TargetResolution) (s : BatchState)
      → Stands j status s.tables
      → Created j status (store_batch e q r s)
  unfolding store_batch
  store-Stands e q r s h =
      if_both (Created j status)
        (not q.dry_run && over_max (lookup "maxTargets" r.excluded_reasons)) _ _ h
        (elim (Option-cases (insert_batch_row e q r s.tables)) [
          | inl a ↦ rw a h
          | inr (t, a) ↦
              rw a (
                fill-Stands e q r.targets (record s { tables = t })
                  (rw a at (row-Stands e q r s h)))
        ])

  create-Stands :
      (e : BatchEnv) (q : SendBatchRequest) (s : BatchState)
      → Stands j status s.tables
      → Created j status (create_batch e q s)
  unfolding create_batch
  create-Stands e q s h = if_both (Created j status) (not (q.token == e.shared_secret)) _ _ h (
      if_both (Created j status) (not e.bulk_send_enabled) _ _ h (
        if_both (Created j status) (not q.dry_run && not q.confirm) _ _ h (
          store-Stands e q (resolve_target_spec e.sources q.target q.max_targets (not q.dry_run)) s
            h)))

  summary-Stands :
      (e : BatchEnv) (r : BatchState × Result SendBatchResponse)
      → Created j status r
      → Retried j status (summary_of e r)
  unfolding get_batch_summary
  summary-Stands e (s, error r) h = h
  summary-Stands e (s, ok r) h = refresh-Stands j status done r.batch_id s.send.db e.now s.tables h

  retry-Stands :
      (e : BatchEnv) (k text token : String) (dedupe_key : Option String) (s : BatchState)
      → Stands j status s.tables
      → Retried j status (retry_failed e k text token dedupe_key s)
  unfolding retry_failed
  retry-Stands e k text token dedupe_key s h =
      let q = retry_request token text dedupe_key (keep_if has_failed (listed k s.tables)) in
      if_both (Retried j status) (not (token == e.shared_secret)) _ _ h (
        if_both (Retried j status) (not e.bulk_send_enabled) _ _ h (
          if_both (Retried j status) (is_empty (keep_if has_failed (listed k s.tables))) _ _ h
            (summary-Stands e (create_batch e q s) (create-Stands e q s h))))

-- What callers and the workers of the send service do: a job may change at any time.
pub data Action : Type 0 where
  jobs_change : SendState → Action
  creates : BatchEnv → SendBatchRequest → Action
  retries : BatchEnv → String → String → String → Option String → Action
  summarises : String → ℕ → Action
  lists : String → ℕ → ItemCursor → ℕ → Action
  cancels : String → ℕ → Action

unfoldable pub act : Action → BatchState → BatchState
unfolding create_batch retry_failed get_batch_summary list_batch_items cancel_batch
act (jobs_change send) s = record s { send = send }
act (creates e q) s = (create_batch e q s).0
act (retries e k text token dedupe_key) s = (retry_failed e k text token dedupe_key s).0
act (summarises k now) s = (get_batch_summary k now s).0
act (lists k limit from now) s = (list_batch_items k limit from now s).0
act (cancels k now) s = (cancel_batch k now s).0

unfoldable pub act_all : List Action → BatchState → BatchState
unfolding act
act_all [] s = s
act_all (a ∷ more) s = act_all more (act a s)

act-Stands :
    (j : String) (status : SendBatchStatus) (done : is_final status ≡ true) (a : Action)
    (s : BatchState)
    → Stands j status s.tables
    → Stands j status (act a s).tables
unfolding act get_batch_summary list_batch_items
act-Stands j status done (jobs_change send) s h = h
act-Stands j status done (creates e q) s h = create-Stands j status done e q s h
act-Stands j status done (retries e k text token dedupe_key) s h =
    retry-Stands j status done e k text token dedupe_key s h
act-Stands j status done (summarises k now) s h =
    refresh-Stands j status done k s.send.db now s.tables h
act-Stands j status done (lists k limit from now) s h =
    refresh-Stands j status done k s.send.db now s.tables h
act-Stands j status done (cancels k now) s h = cancel-Stands j status done k now s h

-- A batch that is completed, failed or canceled keeps this status, whatever calls follow to create batches, to
-- retry, to summarise, to list or to cancel this or other batches, one after the other, and however the jobs
-- change between them.
pub act_all-Stands :
    (j : String) (status : SendBatchStatus) (actions : List Action) (s : BatchState)
    → is_final status ≡ true
    → Stands j status s.tables
    → Stands j status (act_all actions s).tables
unfolding act_all
act_all-Stands j status [] s done h = h
act_all-Stands j status (a ∷ more) s done h =
    act_all-Stands j status more (act a s) done (act-Stands j status done a s h)
