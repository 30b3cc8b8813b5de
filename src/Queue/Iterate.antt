-- ===== src/Queue/Iterate.antt =====
-- The iterator of src/queue.c, which popQueue does not move.
use ebotula.Prelude.{◌≡◌, true, false, some, List, ◌∷◌, ◌==◌, arith}
use ebotula.Queue.Memory.{Ptr, null, QueueData, Heap, ok, fault}
use ebotula.Queue.Ring.{IsQueue}
use ebotula.Queue.Remove.{unlinked, pop_queue-unlinked}
use ebotula.Queue.{pop_queue, get_nextitr_queue}

-- In a well-formed queue of at least two items whose iterator stands on the oldest, popQueue
-- returns that item and frees its node, and the next getNextitrQueue reads the freed node.
pub get_nextitr_queue-dangling :
    {h : Heap} {s p b : Ptr} {ps : List Ptr} {d : QueueData} {ds : List QueueData}
    → IsQueue h s (p ∷ b ∷ ps) (d ∷ ds)
    → h.iterator s ≡ p
    → (g : Heap) × (pop_queue s h ≡ ok (some d) g) × (get_nextitr_queue s g ≡ fault)
unfolding get_nextitr_queue
get_nextitr_queue-dangling {h} {s} {p} {b} {ps} {d} {ds} q at =
    let (ran, is) = pop_queue-unlinked q in
    let s_ok : (s == null) ≡ false = let n = q.ne_null in ground arith in
    let live = is.alive in
    let c = is.count in
    let self : (p == p) ≡ true = ground arith in
    let some_left : ((unlinked h s p).count s == 0) ≡ false = ground arith in
    (unlinked h s p, ran, rw (s_ok, is.alive, is.self, is.alive, some_left, is.alive, at, self))
