-- ===== src/Queue/Tests.antt =====
-- A run of the queue: three items in, two out; and the witnesses of the queue's theorems.
use ebotula.Queue.Ring.{IsQueue}
use ebotula.Queue.Fifo.{push_all, pop_all, copies, somes, Served, push_all-pop_all}
use ebotula.Queue.Drain.{Freed, flush_queue-Freed}
use ebotula.Queue.{flush_queue, delete_queue, get_nextitr_queue}
use ebotula.Prelude.{◌≢◌, arith, length, leb}
use ebotula.Prelude.{
  ◌≡◌, refl, Option, some, none, true, false, List, [], ◌∷◌, ◌==◌, ◌&&◌, not, if◌then◌else◌,
}
use ebotula.CString.{Bytes}
use ebotula.Queue.Memory.{
  Heap, QueueData, Run, ok, fault, blocked, Cmd, pure, ◌>>=◌, ◌>>◌, resume, Ptr, null, read, update,
  set_next, set_prev, set_iterator, set_count, allocate, free, copy_data,
}
use ebotula.Queue.{
  Allocation, QueueExeStatus, queue_success, queue_memory_alloc_error, init_queue, push_queue,
  pop_queue, isempty_queue, isfull_queue, insert_item, link_node, unlink_last, wait_for,
}

abbrev nothing : QueueData
nothing = record { t_size = 0; bytes = none }

abbrev no_memory : Heap
no_memory = record {
  alive = λ _. false;
  next = λ _. null;
  prev = λ _. null;
  sentinel = λ _. null;
  iterator = λ _. null;
  item = λ _. nothing;
  count = λ _. 0;
}

abbrev at : Ptr → Allocation
at p = record { node = p; data_ok = true; copy_ok = true }

abbrev item_of : Bytes → QueueData
item_of s = record { t_size = 1; bytes = some s }

abbrev run_queue : Cmd (Option QueueData × Option QueueData)
run_queue = do
  q ← init_queue 1
  _ ← push_queue (at 2) q (item_of (b'a' ∷ []))
  _ ← push_queue (at 3) q (item_of (b'b' ∷ []))
  _ ← push_queue (at 4) q (item_of (b'c' ∷ []))
  a ← pop_queue q
  b ← pop_queue q
  pure (a, b)

abbrev answer : {A : Type 0} → Run A → Option A
answer (ok a h) = some a
answer fault = none
answer blocked = none
answer ebotula.Queue.Memory.out_of_fuel = none

run_queue_test :
    answer (run_queue no_memory) ≡ some (some (item_of (b'a' ∷ [])), some (item_of (b'b' ∷ [])))
unfolding init_queue push_queue pop_queue insert_item link_node unlink_last
run_queue_test = refl

-- a sentinel at 1 without items
abbrev empty_queue : Heap
empty_queue = record {
  alive = λ p. p == 1;
  next = λ _. 1;
  prev = λ _. 1;
  sentinel = λ _. 1;
  iterator = λ _. 1;
  item = λ _. nothing;
  count = λ _. 0;
}

abbrev one_ne_null : 1 ≢ null
one_ne_null = omega arith

abbrev empty_queue-IsQueue : IsQueue empty_queue 1 [] []
empty_queue-IsQueue = record {
  ne_null = one_ne_null;
  alive = refl;
  self = refl;
  apart = refl;
  distinct = tt;
  links = (refl, refl);
  nodes = tt;
  count = refl;
}

-- the nodes 2 and 3 behind the sentinel 1, and the iterator on the older
abbrev two_items : Heap
two_items = record {
  alive = λ p. leb p 3 && not (p == 0);
  next = λ p. if p == 1 then 3 else if p == 2 then 1 else 2;
  prev = λ p. if p == 1 then 2 else if p == 2 then 3 else 1;
  sentinel = λ _. 1;
  iterator = λ _. 2;
  item = λ p. if p == 2 then item_of (b'a' ∷ []) else item_of (b'b' ∷ []);
  count = λ _. 2;
}

abbrev two_items-IsQueue :
    IsQueue two_items 1 (2 ∷ 3 ∷ []) (item_of (b'a' ∷ []) ∷ item_of (b'b' ∷ []) ∷ [])
two_items-IsQueue = record {
  ne_null = one_ne_null;
  alive = refl;
  self = refl;
  apart = refl;
  distinct = (refl, (refl, tt));
  links = (refl, refl, (refl, refl, (refl, refl)));
  nodes = (refl, refl, (refl, refl, tt));
  count = refl;
}

abbrev served : List (Allocation × QueueData)
served = (at 2, item_of (b'a' ∷ [])) ∷ (at 3, item_of (b'b' ∷ [])) ∷ []

served-Served : Served empty_queue served
served-Served = (
  omega arith,
  refl,
  refl,
  refl,
  refl,
  (refl, refl),
  (omega arith, refl, refl, refl, refl, (refl, refl), tt),
)

push_all-pop_all_example :
    (g : Heap) × ((push_all 1 served >> pop_all 1 (length served)) empty_queue
      ≡ ok (somes (copies served)) g)
    × IsQueue g 1 [] []
push_all-pop_all_example = push_all-pop_all served empty_queue-IsQueue served-Served

flush_queue-Freed_example :
    (g : Heap) × (flush_queue 3 1 two_items ≡ ok queue_success g)
    × IsQueue g 1 [] []
    × Freed (2 ∷ 3 ∷ []) two_items g
flush_queue-Freed_example = flush_queue-Freed 3 two_items-IsQueue (omega arith)
