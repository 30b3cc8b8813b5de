-- ===== src/Queue/Insert.antt =====
-- pushQueue of src/queue.c on a well-formed queue: one node more at the young end of the ring.
use ebotula.Prelude.{
  ℕ, suc, ◌+◌, ◌≡◌, ◌≢◌, refl, Bool, true, false, not, ◌&&◌, List, [], ◌∷◌, ◌++◌, ◌==◌, arith,
  length, length-append, ltb, is_some, ==_iff, Bool-cases, inl, inr,
}
use ebotula.Queue.Memory.{Ptr, null, QueueData, Heap, ok, update, readable, copied}
use ebotula.Queue.Ring.{has, Links, Nodes, IsQueue}
use ebotula.Queue.Links.{
  last_of, next-last, alive-last, not_has-dead, Nodes-frame, Nodes-snoc, has-snoc, Distinct-snoc,
  Links-snoc,
}
use ebotula.Queue.{queue_success, Allocation, link_node, insert_item, push_queue}

-- the heap behind the assembly
abbrev pub linked : Heap → Ptr → Ptr → QueueData → Heap
linked h s n item = record {
  alive = update h.alive n true;
  next = update (update h.next n (h.next s)) s n;
  prev = update (update (update h.prev n null) (h.next s) n) n s;
  sentinel = update h.sentinel n s;
  iterator = update h.iterator n null;
  item = update h.item n item;
  count = update (update h.count n 0) s (h.count s + 1);
}

first_alive :
    (h : Heap) (s : Ptr) (ps : List Ptr) (ds : List QueueData)
    → IsQueue h s ps ds
    → (h.alive (h.next s) ≡ true) × ((h.count s == 0) ≡ true → h.next s ≡ s)
first_alive h s [] ds q = (rw q.links.1 q.alive, λ e. q.links.1)
first_alive h s (b ∷ bs) ds q = (
  rw (next-last h s (b ∷ bs) s q.links) (alive-last h b bs ds q.nodes),
  λ e. absurd_count (q.count) e,
)
  where
    absurd_count : {A : Type 0} {n : ℕ} → n ≡ suc (length bs) → (n == 0) ≡ true → A
    absurd_count c e = absurd (omega (arith, (==_iff _ 0).0 e))

link_node-linked :
    (h : Heap) (s n : Ptr) (ps : List Ptr) (ds : List QueueData) (item : QueueData)
    → IsQueue h s ps ds
    → h.alive n ≡ false
    → link_node s n item h ≡ ok queue_success (linked h s n item)
unfolding link_node
link_node-linked h s n ps ds item q fresh =
    let (live, empty) = first_alive h s ps ds q in
    let alive = q.alive in
    let ne : (s == n) ≡ false = ground arith in
    let self : (n == n) ≡ true = ground arith in
    let ne'' : (h.next s == n) ≡ false = ground arith in
    elim (Bool-cases (h.count s == 0)) [
      | inl e ↦ rw (alive, ne, alive, e, ne, alive, empty e) (rw (self, ne, alive, ne, alive))
      | inr e ↦ rw (alive, ne, alive, e, ne'', live) (rw (self, ne, alive, ne, alive))
    ]

abbrev pub CanStore : QueueData → Type 0
CanStore item =
    (ltb 0 item.t_size && not (is_some item.bytes)) ≡ false × (readable item item.bytes ≡ true)

module _ (h : Heap) (s n : Ptr) (ps : List Ptr) (ds : List QueueData) (q : IsQueue h s ps ds)
    (fresh : h.alive n ≡ false) where
  out : has n ps ≡ false
  out = not_has-dead h n ps ds q.nodes fresh

  s_ne_n : s ≢ n
  s_ne_n = let alive = q.alive in λ e. ground arith

  first_last : h.next s ≡ last_of s ps
  first_last = next-last h s ps s q.links

  last_ne_n : last_of s ps ≢ n
  last_ne_n = let live = (first_alive h s ps ds q).0 in let e = first_last in λ f. ground arith

  ne_of_has : (p : Ptr) → has p ps ≡ true → (p ≢ s) × (p ≢ n)
  ne_of_has p i = let o = out in let a = q.apart in (λ e. cc, λ e. cc)

  linked-Links : (item : QueueData) → Links (linked h s n item) s (ps ++ n ∷ []) s
  linked-Links item =
      let sn = s_ne_n in
      let e = first_last in
      let ln = last_ne_n in
      Links-snoc h (linked h s n item) s ps s n q.links (q.apart, q.distinct) q.apart (ground arith)
        (ground arith) (ground arith) (ground arith) (λ p i ne. ground (arith, ne_of_has p))
        (λ p i. ground (arith, ne_of_has p))

  linked-Nodes : (item : QueueData) → Nodes (linked h s n item) (ps ++ n ∷ []) (ds ++ item ∷ [])
  linked-Nodes item =
      Nodes-snoc (linked h s n item) ps ds n item
        (Nodes-frame h (linked h s n item) ps ds q.nodes
          (λ p i. (ground (arith, ne_of_has p), ground (arith, ne_of_has p))))
        (ground arith) (ground arith)

  -- the assembly leaves a well-formed queue with the new node at its young end
  linked-IsQueue :
      (item : QueueData) → IsQueue (linked h s n item) s (ps ++ n ∷ []) (ds ++ item ∷ [])
  linked-IsQueue item =
      let alive = q.alive in
      let self = q.self in
      let c = q.count in
      record {
        ne_null = q.ne_null;
        alive = ground (arith, s_ne_n);
        self = ground (arith, s_ne_n);
        apart = has-snoc s ps n q.apart s_ne_n;
        distinct = Distinct-snoc ps n q.distinct out;
        links = linked-Links item;
        nodes = linked-Nodes item;
        count = ground (arith, length-append ps (n ∷ []));
      }

and_false : (b : Bool) → (b && false) ≡ false
and_false true = refl
and_false false = refl

-- With memory, pushQueue adds the copy of an item at the young end of the queue.
pub push_queue-linked :
    {h : Heap} {s : Ptr} {ps : List Ptr} {ds : List QueueData} (m : Allocation) (item : QueueData)
    → IsQueue h s ps ds
    → m.node ≢ null
    → h.alive m.node ≡ false
    → (m.data_ok ≡ true) × (m.copy_ok ≡ true)
    → CanStore item
    → (push_queue m s item h ≡ ok queue_success (linked h s m.node (copied item item.bytes)))
      × IsQueue
          (linked h s m.node (copied item item.bytes))
          s
          (ps ++ m.node ∷ [])
          (ds ++ copied item item.bytes ∷ [])
unfolding push_queue insert_item
push_queue-linked {h} {s} {ps} {ds} m item q ne fresh (d, c) (sized, fits) =
    let s_ok : (s == null) ≡ false = let n = q.ne_null in ground arith in
    let m_ok : (m.node == null) ≡ false = ground arith in
    (
      rw (s_ok, q.alive, q.self, s_ok, sized, m_ok, d, c)
          (rw (and_false (ltb 0 item.t_size))
            (rw fits (link_node-linked h s m.node ps ds (copied item item.bytes) q fresh))),
      linked-IsQueue h s m.node ps ds q fresh (copied item item.bytes),
    )
