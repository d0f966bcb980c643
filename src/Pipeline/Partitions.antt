-- ===== src/Pipeline/Partitions.antt =====
-- What a refused event leaves among the room partitions.
use kakao_x_termux.Prelude.{ℕ, suc, ◌≡◌, String, none, some, false, List, [], ◌∷◌, arith, eq_refl}
use kakao_x_termux.Prelude.Texts.{contains}
use kakao_x_termux.Dict.{lookup, insert, lookup-insert}
use kakao_x_termux.Schemas.{BridgeEvent}
use kakao_x_termux.Pipeline.State.{InMemoryEventEnvelope, MemoryPipeline, queue_full}
use kakao_x_termux.Pipeline.Admission.{admit, count_new, active_partitions}
use kakao_x_termux.Pipeline.Rooms.{Queues}

count_new-insert :
    (active : List String) (room : String) (q : List InMemoryEventEnvelope) (d : Queues)
    → lookup room d ≡ none
    → contains room active ≡ false
    → count_new active (insert room q d) ≡ suc (count_new active d)
unfolding count_new lookup insert
count_new-insert active room q [] h idle = ground arith
count_new-insert active room q ((i, w) ∷ d) h idle =
    ground (arith, count_new-insert active room q d)

-- An event for a room without a queue, which no worker holds, that is refused because the whole queue is full:
-- it still opens a partition for the room, an empty queue, which counts against the limit on partitions.
pub refused_partition :
    (event : BridgeEvent) (now : ℕ) (p : MemoryPipeline)
    → lookup event.room_key p.room_queues ≡ none
    → contains event.room_key p.active_rooms ≡ false
    → (admit event now p).1 ≡ queue_full
    → let q = (admit event now p).0 in
      (lookup event.room_key q.room_queues ≡ some [])
      × (active_partitions q ≡ suc (active_partitions p))
      × (q.queued_total ≡ p.queued_total)
unfolding admit active_partitions
refused_partition event now p0 fresh idle h =
    let room = event.room_key in
    ground (
      arith,
      h,
      lookup-insert room room [] p0.room_queues,
      eq_refl room,
      count_new-insert p0.active_rooms room [] p0.room_queues fresh idle,
    )
