-- ===== src/Queue/Fifo.antt =====
-- The contract of pushQueue and popQueue of src/queue.c: a first-in first-out queue of copies.
use ebotula.Prelude.{
  ℕ, zero, suc, ◌≡◌, ◌≢◌, refl, ap, Bool, true, false, not, ◌&&◌, ◌⊎◌, Option, some, List, [], ◌∷◌,
  ◌++◌, ◌==◌, arith, length, if◌then◌else◌, ltb, is_some, append_assoc, append-nil,
}
use ebotula.Queue.Memory.{Ptr, null, QueueData, Heap, ok, copied, Cmd, ◌>>=◌, ◌>>◌, pure}
use ebotula.Queue.Ring.{has, IsQueue}
use ebotula.Queue.Insert.{linked, CanStore, push_queue-linked}
use ebotula.Queue.Remove.{unlinked, pop_queue-unlinked}
use ebotula.Queue.{
  QueueExeStatus, queue_memory_alloc_error, queue_null_pointer_as_in_parameter, Allocation,
  insert_item, push_queue, pop_queue,
}

-- calls of pushQueue, one behind the other
pub push_all : Ptr → List (Allocation × QueueData) → Cmd (Unit {0})
push_all s [] = pure tt
push_all s ((m, item) ∷ ms) = do _ ← push_queue m s item; push_all s ms

-- `n` calls of popQueue, and what they return
pub pop_all : Ptr → ℕ → Cmd (List (Option QueueData))
pop_all s zero = pure []
pop_all s (suc n) = do d ← pop_queue s; rest ← pop_all s n; pure (d ∷ rest)

abbrev pub nodes_of : List (Allocation × QueueData) → List Ptr
nodes_of [] = []
nodes_of ((m, _) ∷ ms) = m.node ∷ nodes_of ms

abbrev pub copies : List (Allocation × QueueData) → List QueueData
copies [] = []
copies ((_, item) ∷ ms) = copied item item.bytes ∷ copies ms

abbrev pub somes : List QueueData → List (Option QueueData)
somes [] = []
somes (d ∷ ds) = some d ∷ somes ds

-- malloc answers each call with memory that is not in use, and each item can be copied
abbrev pub Served : Heap → List (Allocation × QueueData) → Type 0
Served h [] = Unit
Served h ((m, item) ∷ ms) =
    (m.node ≢ null)
    × (h.alive m.node ≡ false)
    × (has m.node (nodes_of ms) ≡ false)
    × (m.data_ok ≡ true)
    × (m.copy_ok ≡ true)
    × CanStore item
    × Served h ms

Served-linked :
    (h : Heap) (s n : Ptr) (d : QueueData) (ms : List (Allocation × QueueData))
    → has n (nodes_of ms) ≡ false
    → Served h ms
    → Served (linked h s n d) ms
Served-linked h s n d [] o sv = tt
Served-linked h s n d ((m, item) ∷ ms) o (ne, fresh, other, dok, cok, can, sv) =
    (ne, ground arith, other, dok, cok, can, Served-linked h s n d ms (ground arith) sv)

push_all-IsQueue :
    (h : Heap) (s : Ptr) (ps : List Ptr) (ds : List QueueData) (ms : List (Allocation × QueueData))
    → IsQueue h s ps ds
    → Served h ms
    → (g : Heap) × (push_all s ms h ≡ ok tt g) × IsQueue g s (ps ++ nodes_of ms) (ds ++ copies ms)
unfolding push_all
push_all-IsQueue h s ps ds [] q sv = (h, refl, rw (append-nil ps, append-nil ds) q)
push_all-IsQueue h s ps ds ((m, item) ∷ ms) q (ne, fresh, other, dok, cok, can, sv) =
    let d = copied item item.bytes in
    let (ran, is) = push_queue-linked m item q ne fresh (dok, cok) can in
    let (g, rest, last) =
      push_all-IsQueue (linked h s m.node d) s (ps ++ m.node ∷ []) (ds ++ d ∷ []) ms is
        (Served-linked h s m.node d ms other sv) in
    (
      g,
      rw ran rest,
      rw (append_assoc ps (m.node ∷ []) (nodes_of ms), append_assoc ds (d ∷ []) (copies ms)) at
          last,
    )

pop_all-IsQueue :
    (h : Heap) (s : Ptr) (ps : List Ptr) (ds : List QueueData)
    → IsQueue h s ps ds
    → (g : Heap) × (pop_all s (length ps) h ≡ ok (somes ds) g) × IsQueue g s [] []
unfolding pop_all
pop_all-IsQueue h s [] [] q = (h, refl, q)
pop_all-IsQueue h s [] (d ∷ ds) q = absurd q.nodes
pop_all-IsQueue h s (p ∷ ps) [] q = absurd q.nodes
pop_all-IsQueue h s (p ∷ ps) (d ∷ ds) q =
    let (ran, is) = pop_queue-unlinked q in
    let (g, rest, last) = pop_all-IsQueue (unlinked h s p) s ps ds is in (g, rw ran (rw rest), last)

length-nodes_of : (ms : List (Allocation × QueueData)) → length (nodes_of ms) ≡ length ms
length-nodes_of [] = refl
length-nodes_of ((m, item) ∷ ms) = ap suc (length-nodes_of ms)

-- Items pushed into an empty well-formed queue come back from as many calls of popQueue, each
-- once, in the order in which they were pushed and as the copies that were made of them; the queue
-- is then empty and well formed again. The condition is that each allocation is served with memory
-- that is not in use, and that each item can be copied.
pub push_all-pop_all :
    {h : Heap} {s : Ptr} (ms : List (Allocation × QueueData))
    → IsQueue h s [] []
    → Served h ms
    → (g : Heap) × ((push_all s ms >> pop_all s (length ms)) h ≡ ok (somes (copies ms)) g)
      × IsQueue g s [] []
push_all-pop_all {h} {s} ms q sv =
    let (k, pushed, full) = push_all-IsQueue h s [] [] ms q sv in
    let (g, popped, empty) = pop_all-IsQueue k s (nodes_of ms) (copies ms) full in
    (g, rw pushed (rw (length-nodes_of ms) at popped), empty)

any_true :
    {A : Type 0} (a b c : Bool) (x y : A)
    → (a ≡ true) ⊎ (b ≡ true) ⊎ (c ≡ true)
    → (if a then x else if b then x else if c then x else y) ≡ x
any_true true b c x y h = refl
any_true false true c x y h = refl
any_true false false true x y h = refl
any_true false false false x y h = ground arith

-- A push whose node, header or copy cannot be allocated reports QUEUE_MEMORY_ALLOC_ERROR, and a
-- push of a NULL pointer with a size, or into the queue NULL, reports
-- QUEUE_NULL_POINTER_AS_IN_PARAMETER. In all these cases nothing is written and nothing leaks.
pub push_queue-errors :
    {h : Heap} {s : Ptr} {ps : List Ptr} {ds : List QueueData} (m : Allocation) (item : QueueData)
    → IsQueue h s ps ds
    → (((m.node ≡ null) ⊎ (m.data_ok ≡ false) ⊎ ((ltb 0 item.t_size && not m.copy_ok) ≡ true))
        → CanStore item
        → push_queue m s item h ≡ ok queue_memory_alloc_error h)
      × ((ltb 0 item.t_size && not (is_some item.bytes)) ≡ true
          → push_queue m s item h ≡ ok queue_null_pointer_as_in_parameter h)
      × (push_queue m null item h ≡ ok queue_null_pointer_as_in_parameter h)
unfolding push_queue insert_item
push_queue-errors {h} {s} m item q =
    let s_ok : (s == null) ≡ false = let n = q.ne_null in ground arith in
    (
      λ failed can. rw (s_ok, q.alive, q.self, s_ok, can.0) (alloc_error failed),
      λ missing. rw (s_ok, q.alive, q.self, s_ok, missing),
      refl,
    )
  where
    alloc_error :
        (m.node ≡ null) ⊎ (m.data_ok ≡ false) ⊎ ((ltb 0 item.t_size && not m.copy_ok) ≡ true)
        → insert_item m s item h ≡ ok queue_memory_alloc_error h
    alloc_error failed =
        let first : ((m.node == null) ≡ true)
            ⊎ (not m.data_ok ≡ true)
            ⊎ ((ltb 0 item.t_size && not m.copy_ok) ≡ true) =
          ground arith in
        ap (λ (c : Cmd QueueExeStatus). c h) (any_true _ _ _ _ _ first)

-- On a well-formed queue, a push of an item that can be copied, for which the allocation of the
-- node, of its header or of the copy fails, reports QUEUE_MEMORY_ALLOC_ERROR, and leaves memory as
-- it was: nothing is linked and nothing leaks.
pub push_queue-alloc_error :
    {h : Heap} {s : Ptr} {ps : List Ptr} {ds : List QueueData} (m : Allocation) (item : QueueData)
    → IsQueue h s ps ds
    → ((m.node ≡ null) ⊎ (m.data_ok ≡ false) ⊎ ((ltb 0 item.t_size && not m.copy_ok) ≡ true))
    → CanStore item
    → push_queue m s item h ≡ ok queue_memory_alloc_error h
push_queue-alloc_error m item q failed can = (push_queue-errors m item q).0 failed can
