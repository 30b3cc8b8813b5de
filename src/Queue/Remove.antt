-- ===== src/Queue/Remove.antt =====
-- popQueue of src/queue.c on a well-formed queue: the oldest node leaves the ring.
use ebotula.Prelude.{
  ◌-◌, ◌≡◌, ◌≢◌, refl, true, false, some, List, [], ◌∷◌, ◌==◌, arith, Bool-cases, inl, inr,
}
use ebotula.Queue.Memory.{Ptr, null, QueueData, Heap, ok, update}
use ebotula.Queue.Ring.{has, Distinct, Links, Nodes, IsQueue}
use ebotula.Queue.Links.{Nodes-frame, Links-frame}
use ebotula.Queue.{unlink_last, pop_queue}

-- the heap behind the removal of the oldest node `p`
abbrev pub unlinked : Heap → Ptr → Ptr → Heap
unlinked h s p = record {
  alive = update h.alive p false;
  next = update h.next (h.prev p) s;
  prev = update h.prev s (h.prev p);
  sentinel = h.sentinel;
  iterator = h.iterator;
  item = h.item;
  count = update h.count s (h.count s - 1);
}

module _ (h : Heap) (s p : Ptr) (ps : List Ptr) (d : QueueData) (ds : List QueueData)
    (q : IsQueue h s (p ∷ ps) (d ∷ ds)) where
  p_ne_s : (p == s) ≡ false
  p_ne_s = let a = q.apart in ground arith

  before_alive :
      (qs : List Ptr) (es : List QueueData)
      → Links h p qs s
      → Nodes h qs es
      → h.alive (h.prev p) ≡ true
  before_alive [] es l n = rw l.0 q.alive
  before_alive (b ∷ bs) [] l n = absurd n
  before_alive (b ∷ bs) (e ∷ es) l n = rw l.0 n.0

  -- `old` is linked, the node behind it is allocated
  unlink_last-unlinked : unlink_last s h ≡ ok (some d) (unlinked h s p)
  unfolding unlink_last
  unlink_last-unlinked =
      let first = q.links.0 in
      let live = q.nodes.0 in
      let before = before_alive ps ds q.links.2 q.nodes.2 in
      rw (q.alive, first, p_ne_s, live, live, q.alive, before, q.alive, q.alive, live, q.nodes.1)

unlinked-Links :
    (h : Heap) (s p : Ptr) (ps : List Ptr)
    → Links h p ps s
    → has s (p ∷ ps) ≡ false
    → Distinct (p ∷ ps)
    → Links (unlinked h s p) s ps s
unlinked-Links h s p [] (x, y) o d = (ground arith, ground arith)
unlinked-Links h s p (c ∷ cs) (x, y, l) o (dp, (dc, dcs)) = (
  ground arith,
  ground arith,
  Links-frame h (unlinked h s p) c cs s l
      (λ r i. let ne : r ≢ s = λ e. cc_not r s (c ∷ cs) e i (ground arith) in ground arith)
      (λ r i. let ne : r ≢ c = λ e. in_tail r e i in ground arith),
)
  where
    cc_not : (a b : Ptr) (rs : List Ptr) → a ≡ b → has a rs ≡ true → has b rs ≡ false → ⊥
    cc_not a b rs e i j = cc

    in_tail : (a : Ptr) → a ≡ c → has a (s ∷ cs) ≡ true → ⊥
    in_tail a e i = elim (Bool-cases (a == s)) [
      | inl f ↦ ground arith
      | inr f ↦ cc_not a c cs e (ground arith) dc
    ]

module _ (h : Heap) (s p : Ptr) (ps : List Ptr) (d : QueueData) (ds : List QueueData)
    (q : IsQueue h s (p ∷ ps) (d ∷ ds)) where
  -- the rest of the ring is a well-formed queue
  unlinked-IsQueue : IsQueue (unlinked h s p) s ps ds
  unlinked-IsQueue =
      let alive = q.alive in
      let c = q.count in
      let apart = q.apart in
      let distinct = q.distinct in
      record {
        ne_null = q.ne_null;
        alive = ground arith;
        self = q.self;
        apart = ground arith;
        distinct = q.distinct.1;
        links = unlinked-Links h s p ps q.links.2 q.apart q.distinct;
        nodes =
            Nodes-frame h (unlinked h s p) ps ds q.nodes.2
              (λ r i. (let ne : r ≢ p = λ e. differ r e i in ground arith, refl));
        count = ground arith;
      }
    where
      differ : (r : Ptr) → r ≡ p → has r ps ≡ true → ⊥
      differ r e i = let o = q.distinct.0 in cc

-- popQueue takes the oldest item, frees its node, and leaves the queue of the others.
pub pop_queue-unlinked :
    {h : Heap} {s p : Ptr} {ps : List Ptr} {d : QueueData} {ds : List QueueData}
    → IsQueue h s (p ∷ ps) (d ∷ ds)
    → (pop_queue s h ≡ ok (some d) (unlinked h s p)) × IsQueue (unlinked h s p) s ps ds
unfolding pop_queue
pop_queue-unlinked {h} {s} {p} {ps} {d} {ds} q =
    let s_ok : (s == null) ≡ false = let n = q.ne_null in ground arith in
    let full : (h.count s == 0) ≡ false = let c = q.count in ground arith in
    (
      rw (s_ok, q.alive, q.self, s_ok, q.alive, full) (unlink_last-unlinked h s p ps d ds q),
      unlinked-IsQueue h s p ps d ds q,
    )
