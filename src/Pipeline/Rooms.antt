-- ===== src/Pipeline/Rooms.antt =====
-- The room queues as a whole: how many envelopes they hold, and what each section leaves of them.
use kakao_x_termux.Prelude.{
  ℕ, ◌+◌, suc, ap, ◌≡◌, refl, String, List, [], ◌∷◌, arith, length, if◌then◌else◌, ◌==◌, eq_iff,
}
use kakao_x_termux.Dict.{
  Dict, lookup, insert, remove, lookup-insert, lookup-remove, IsUnique, IsUnique-insert,
  IsUnique-remove, remove_absent,
}
use kakao_x_termux.Pipeline.State.{InMemoryEventEnvelope, queue_or_empty}
use kakao_x_termux.Pipeline.Worker.{without_head}

abbrev pub Queues : Type 0
Queues = Dict (List InMemoryEventEnvelope)

unfoldable pub total : Queues → ℕ
total [] = 0
total ((room, q) ∷ d) = length q + total d

pub total-insert :
    (room : String) (q : List InMemoryEventEnvelope) (d : Queues)
    → total (insert room q d) + length (queue_or_empty (lookup room d)) ≡ total d + length q
unfolding total insert lookup
total-insert room q [] = omega arith
total-insert room q ((i, w) ∷ d) = ground (arith, total-insert room q d)

pub total-remove :
    (room : String) (d : Queues)
    → IsUnique d
    → total (remove room d) + length (queue_or_empty (lookup room d)) ≡ total d
unfolding total remove lookup
total-remove room [] u = refl
total-remove room ((i, w) ∷ d) u =
    ground (arith, total-remove room d u.1, remove_absent room d, eq_iff i room)

pub queue-insert :
    (room k : String) (q : List InMemoryEventEnvelope) (d : Queues)
    → queue_or_empty (lookup k (insert room q d))
      ≡ (if room == k then q else queue_or_empty (lookup k d))
queue-insert room k q d = rw (lookup-insert room k q d) (ground arith)

pub queue-remove :
    (room k : String) (d : Queues)
    → queue_or_empty (lookup k (remove room d))
      ≡ (if room == k then [] else queue_or_empty (lookup k d))
queue-remove room k d = rw (lookup-remove room k d) (ground arith)

module _ (room : String) (e : InMemoryEventEnvelope) (rest : List InMemoryEventEnvelope)
    (d : Queues) (u : IsUnique d) (q : queue_or_empty (lookup room d) ≡ e ∷ rest) where
  pub total-without_head : suc (total (without_head room rest d)) ≡ total d
  total-without_head = ground (arith, total-remove room d u, total-insert room rest d, ap length q)

  pub IsUnique-without_head : IsUnique (without_head room rest d)
  IsUnique-without_head = ground (arith, IsUnique-remove room d u, IsUnique-insert room rest d u)

  pub queue-without_head :
      (k : String)
      → queue_or_empty (lookup k (without_head room rest d))
        ≡ (if room == k then rest else queue_or_empty (lookup k d))
  queue-without_head k = ground (arith, queue-insert room k rest d, queue-remove room k d)
