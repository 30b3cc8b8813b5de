-- ===== src/Queue/Drain.antt =====
-- flushQueue and deleteQueue of src/queue.c: the loop ends, and no node is left behind.
use ebotula.Prelude.{
  ℕ, zero, suc, ◌<◌, ◌≡◌, refl, false, not, List, [], ◌∷◌, ◌==◌, arith, length, if◌then◌else◌,
}
use ebotula.Queue.Memory.{Ptr, null, QueueData, Heap, ok, update}
use ebotula.Queue.Ring.{has, IsQueue}
use ebotula.Queue.Remove.{unlinked, pop_queue-unlinked}
use ebotula.Queue.{
  queue_success, isempty_queue, isfull_queue, flush_loop, flush_queue, delete_queue,
}

-- isemptyQueue and isfullQueue tell whether there are items, and change nothing
pub isfull_queue-IsQueue :
    {h : Heap} {s : Ptr} {ps : List Ptr} {ds : List QueueData}
    → IsQueue h s ps ds
    → isfull_queue s h ≡ ok (not (length ps == 0)) h
unfolding isfull_queue isempty_queue
isfull_queue-IsQueue {h} {s} q =
    let s_ok : (s == null) ≡ false = let n = q.ne_null in ground arith in
    rw (s_ok, q.alive, q.self, s_ok, q.alive, q.count)

-- `g` is `h` less the nodes of `ps`
abbrev pub Freed : List Ptr → Heap → Heap → Type 0
Freed ps h g = (p : Ptr) → g.alive p ≡ (if has p ps then false else h.alive p)

flush_loop-Freed :
    (fuel : ℕ) (h : Heap) (s : Ptr) (ps : List Ptr) (ds : List QueueData)
    → IsQueue h s ps ds
    → length ps < fuel
    → (g : Heap) × (flush_loop fuel s h ≡ ok tt g) × IsQueue g s [] [] × Freed ps h g
unfolding flush_loop
flush_loop-Freed zero h s ps ds q f = absurd (omega arith)
flush_loop-Freed (suc fuel) h s [] [] q f = (h, rw (isfull_queue-IsQueue q), q, λ p. refl)
flush_loop-Freed (suc fuel) h s [] (d ∷ ds) q f = absurd q.nodes
flush_loop-Freed (suc fuel) h s (p ∷ ps) [] q f = absurd q.nodes
flush_loop-Freed (suc fuel) h s (p ∷ ps) (d ∷ ds) q f =
    let (ran, is) = pop_queue-unlinked q in
    let (g, rest, empty, gone) = flush_loop-Freed fuel (unlinked h s p) s ps ds is (omega arith) in
    let full : (length (p ∷ ps) == 0) ≡ false = ground arith in
    (g, rw (isfull_queue-IsQueue q, full) (rw ran rest), empty, λ r. ground (arith, gone r))

-- With fuel beyond the number of its items flushQueue succeeds on a well-formed queue: the queue
-- is then empty and well formed, every node of it is freed once, and no other allocation has
-- changed.
pub flush_queue-Freed :
    {h : Heap} {s : Ptr} {ps : List Ptr} {ds : List QueueData} (fuel : ℕ)
    → IsQueue h s ps ds
    → length ps < fuel
    → (g : Heap) × (flush_queue fuel s h ≡ ok queue_success g) × IsQueue g s [] [] × Freed ps h g
unfolding flush_queue
flush_queue-Freed {h} {s} {ps} {ds} fuel q f =
    let s_ok : (s == null) ≡ false = let n = q.ne_null in ground arith in
    let (g, ran, empty, gone) = flush_loop-Freed fuel h s ps ds q f in
    (g, rw (s_ok, ran, empty.alive), empty, gone)

-- With fuel beyond the number of its items deleteQueue succeeds on a well-formed queue, and frees
-- exactly the nodes of the queue and its sentinel.
pub delete_queue-Freed :
    {h : Heap} {s : Ptr} {ps : List Ptr} {ds : List QueueData} (fuel : ℕ)
    → IsQueue h s ps ds
    → length ps < fuel
    → (g : Heap) × (delete_queue fuel s h ≡ ok queue_success g) × Freed (s ∷ ps) h g
unfolding delete_queue
delete_queue-Freed {h} {s} fuel q f =
    let s_ok : (s == null) ≡ false = let n = q.ne_null in ground arith in
    let (g, ran, empty, gone) = flush_queue-Freed fuel q f in
    (
      record g { alive = update g.alive s false },
      rw (s_ok, q.alive, q.self, s_ok, ran, empty.alive),
      λ p. ground (arith, gone p),
    )
