-- ===== src/Batches/Repeats.antt =====
-- A batch that is sent again under the same dedupe key.
use Prim.Native.Char.{Char}
use Prim.Native.String.{[], ◌∷◌}
use kakao_x_termux.Prelude.{
  ℕ, zero, suc, ◌≡◌, refl, ap, sym, ◌∙◌, String, Option, none, some, Bool, true, false, List, ◌&&◌,
  ◌||◌, not, ◌==◌, if◌then◌else◌, if_both, arith, eq_iff, eq_refl, Bool-cases, Option-cases, inl,
  inr, is_some,
}
use kakao_x_termux.Prelude
use kakao_x_termux.Send.{SendState, Surroundings, handle_send, send_verified}
use kakao_x_termux.Send.Repeats.{
  HasJob, send_verified-HasJob, send_verified-found, send_verified-stores,
}
use kakao_x_termux.StateStore.Keys.{join}
use kakao_x_termux.Targets.Resolve.{ResolvedTarget}
use kakao_x_termux.Batches.Service.{BatchState}
use kakao_x_termux.Dispatch.{first_text}
use kakao_x_termux.Batches.Create.{
  SendBatchRequest, target_key, send_request, dispatch_targets, after_send,
}

abbrev is_blank : String → Bool
is_blank [] = true
is_blank (c ∷ s) = false

cons_filled : (c : Char) (s : String) → (c ∷ s == "") ≡ false
cons_filled c s = elim (Bool-cases (c ∷ s == "")) [
  | inl e ↦ (let blank = ap is_blank ((eq_iff (c ∷ s) "").0 e) in ground (arith, blank))
  | inr e ↦ e
]

join_filled : (s t : String) → (t == "") ≡ false → (join s t == "") ≡ false
unfolding join
join_filled [] t h = h
join_filled (c ∷ s) t h = cons_filled c (join s t)

join_filled_left : (s : String) → (join ":" s == "") ≡ false
unfolding join
join_filled_left s = cons_filled ":" s

key_filled :
    (batch_id : String) (q : SendBatchRequest) (t : ResolvedTarget)
    → (target_key batch_id q t == "") ≡ false
unfolding target_key join
key_filled batch_id q t =
    join_filled (first_text q.dedupe_key batch_id) (join ":" t.room_key)
      (join_filled_left t.room_key)

-- Every request of the batch finds the service at work: the token is right, and neither the lookup of a
-- token nor the insertion of a job raises.
abbrev pub Works : SendBatchRequest → (ℕ → Surroundings) → Type 0
Works q sends =
    (i : ℕ)
    → ((sends i).lookup_raises ≡ false)
      × ((sends i).insert_raises ≡ false)
      × ((q.token == (sends i).shared_secret) ≡ true)

-- Each target has a job under its key, or its key is taken.
abbrev AllSent : String → SendBatchRequest → List ResolvedTarget → SendState → Type 0
AllSent b q Prelude.[] s = Unit {0}
AllSent b q (Prelude.◌∷◌ t ts) s =
    HasJob (target_key b q t) (some (target_key b q t)) s × AllSent b q ts s

module _ (b : String) (q : SendBatchRequest) (sends : ℕ → Surroundings)
    (works : Works q sends) where
  sent_one :
      (n : ℕ) (t : ResolvedTarget) (s : BatchState)
      → (after_send b t (sends n).now (handle_send (sends n) (send_request b q t) s.send) s).0.send
        ≡ (send_verified (sends n) (send_request b q t) s.send).0
  unfolding handle_send
  sent_one n t s = simp (works n).2 refl

  accepted_one :
      (n : ℕ) (t : ResolvedTarget) (s : BatchState)
      → (after_send b t (sends n).now (handle_send (sends n) (send_request b q t) s.send) s).1
        ≡ true
  unfolding handle_send
  accepted_one n t s = simp (works n).2 refl

  -- A job of the table is there after the batch too.
  dispatch-HasJob :
      (k : String) (d : Option String) (ts : List ResolvedTarget) (n : ℕ) (s : BatchState)
      → HasJob k d s.send
      → HasJob k d (dispatch_targets b q sends n ts s).0.send
  unfolding dispatch_targets
  dispatch-HasJob k d Prelude.[] n s h = h
  dispatch-HasJob k d (Prelude.◌∷◌ t ts) n s h =
      let kept = send_verified-HasJob k d (sends n) (send_request b q t) s.send h in
      simp (accepted_one n t s) (dispatch-HasJob k d ts (suc n) _ (rw (sent_one n t s) kept))

  dispatch-AllSent :
      (ts : List ResolvedTarget) (n : ℕ) (s : BatchState)
      → AllSent b q ts (dispatch_targets b q sends n ts s).0.send
  unfolding dispatch_targets
  dispatch-AllSent Prelude.[] n s = tt
  dispatch-AllSent (Prelude.◌∷◌ t ts) n s =
      let key = target_key b q t in
      let stored =
        send_verified-stores (sends n) (send_request b q t) key s.send ((works n).0, (works n).1)
          refl (key_filled b q t) in
      simp (accepted_one n t s) (
        dispatch-HasJob key (some key) ts (suc n) _ (rw (sent_one n t s) stored),
        dispatch-AllSent ts (suc n) _,
      )

  -- Targets whose keys are taken: no request changes a job or the queue.
  dispatch-sent :
      (ts : List ResolvedTarget) (n : ℕ) (s : BatchState)
      → AllSent b q ts s.send
      → ((dispatch_targets b q sends n ts s).0.send ≡ s.send)
        × ((dispatch_targets b q sends n ts s).1 ≡ true)
  unfolding dispatch_targets
  dispatch-sent Prelude.[] n s h = (refl, refl)
  dispatch-sent (Prelude.◌∷◌ t ts) n s h =
      let same =
        sent_one n t s
        ∙ send_verified-found (sends n) (send_request b q t) (target_key b q t) s.send
            ((works n).0, (works n).1) refl (key_filled b q t) h.0 in
      let rest = dispatch-sent ts (suc n) _ (rw same h.1) in
      simp (accepted_one n t s) (rest.0 ∙ same, rest.1)

same_key :
    (b c : String) (q r : SendBatchRequest) (k : String) (t : ResolvedTarget)
    → q.dedupe_key ≡ some k
    → r.dedupe_key ≡ some k
    → (k == "") ≡ false
    → target_key b q t ≡ target_key c r t
unfolding target_key
same_key b c q r k t hq hr filled = rw (hq, hr, filled) refl

same-AllSent :
    (b c : String) (q r : SendBatchRequest) (k : String) (ts : List ResolvedTarget) (s : SendState)
    → q.dedupe_key ≡ some k
    → r.dedupe_key ≡ some k
    → (k == "") ≡ false
    → AllSent b q ts s
    → AllSent c r ts s
same-AllSent b c q r k Prelude.[] s hq hr filled h = tt
same-AllSent b c q r k (Prelude.◌∷◌ t ts) s hq hr filled h =
    (rw (same_key b c q r k t hq hr filled) at h.0, same-AllSent b c q r k ts s hq hr filled h.1)

-- A batch that is dispatched again to the same targets under the same dedupe key, which is not empty,
-- while the service works: every request is answered, and no job is added or changed and nothing is put
-- in the dispatch queue, whatever the text of the second batch is.
pub dispatch_targets-repeated :
    (b c : String) (q r : SendBatchRequest) (sends again : ℕ → Surroundings) (k : String)
    (ts : List ResolvedTarget) (s : BatchState)
    → Works q sends
    → Works r again
    → q.dedupe_key ≡ some k
    → r.dedupe_key ≡ some k
    → (k == "") ≡ false
    → ((dispatch_targets c r again 0 ts (dispatch_targets b q sends 0 ts s).0).0.send
        ≡ (dispatch_targets b q sends 0 ts s).0.send)
      × ((dispatch_targets c r again 0 ts (dispatch_targets b q sends 0 ts s).0).1 ≡ true)
dispatch_targets-repeated b c q r sends again k ts s works works' hq hr filled =
    let s' = (dispatch_targets b q sends 0 ts s).0 in
    dispatch-sent c r again works' ts 0 s'
      (same-AllSent b c q r k ts s'.send hq hr filled (dispatch-AllSent b q sends works ts 0 s))
