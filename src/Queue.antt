-- ===== src/Queue.antt =====
-- src/queue.c: the queue of messages, a ring of heap nodes behind a sentinel. Each function runs
-- under the queue's mutex, so a call is one step; a wait on the condition with an empty queue is
-- the outcome `blocked`. The results of `malloc` are arguments, and NULL is the address 0.
pub mod Memory
pub mod Ring
mod Links
mod Insert
mod Remove
pub mod Fifo
pub mod Drain
pub mod Iterate
mod Tests
use ebotula.Prelude.{
  ℕ, zero, suc, ◌+◌, ◌-◌, Bool, true, false, not, ◌&&◌, ◌||◌, Option, none, some, ◌==◌, ltb,
  if◌then◌else◌, is_some, [], ◌∷◌, length, List,
}
use ebotula.CString.{Bytes}
use Memory.{
  Ptr, null, QueueData, Heap, Run, ok, fault, blocked, out_of_fuel, Cmd, pure, ◌>>=◌, ◌>>◌, read,
  set_next, set_prev, set_iterator, set_count, allocate, free, copy_data,
}

pub data QueueExeStatus : Type 0 where
  queue_success queue_error queue_memory_alloc_error queue_no_element_left : QueueExeStatus
  queue_null_pointer_as_in_parameter : QueueExeStatus

-- What `malloc` answers in pushQueue: the node, and whether the two further calls succeed.
pub record Allocation : Type 0 where
  pub node : Ptr
  pub data_ok : Bool
  pub copy_ok : Bool

pub init_queue : Ptr → Cmd Ptr
init_queue fresh =
    if fresh == null
    then pure null
    else do allocate fresh fresh fresh fresh fresh (record { t_size = 0; bytes = none }); pure fresh

-- the assembly of pushQueue, under the mutex
pub link_node : Ptr → Ptr → QueueData → Cmd QueueExeStatus
link_node s new item = do
  first ← read (λ h. h.next) s
  allocate new first null s null item
  n ← read (λ h. h.count) s
  if n == 0 then set_prev s new else set_prev first new
  set_prev new s
  set_next s new
  set_count s (n + 1)
  pure queue_success

-- the three allocations of pushQueue, each with its error path
pub insert_item : Allocation → Ptr → QueueData → Cmd QueueExeStatus
insert_item m s item =
    if m.node == null
    then pure queue_memory_alloc_error
    else if not m.data_ok
    then pure queue_memory_alloc_error
    else if ltb 0 item.t_size && not m.copy_ok
    then pure queue_memory_alloc_error
    else do copied ← copy_data item; link_node s m.node copied

unfoldable pub push_queue : Allocation → Ptr → QueueData → Cmd QueueExeStatus
push_queue m p item = if p == null then pure queue_null_pointer_as_in_parameter else do
  s ← read (λ h. h.sentinel) p
  if s == null || (ltb 0 item.t_size && not (is_some item.bytes))
      then pure queue_null_pointer_as_in_parameter
      else insert_item m s item

-- the poping of popQueue, behind the wait
pub unlink_last : Ptr → Cmd (Option QueueData)
unlink_last s = do
  old ← read (λ h. h.prev) s
  if old == s then pure none else do
    item ← read (λ h. h.item) old
    before ← read (λ h. h.prev) old
    set_prev s before
    set_next before s
    n ← read (λ h. h.count) s
    set_count s (n - 1)
    free old
    pure (some item)

abbrev wait_for : ℕ → Cmd (Unit {0})
wait_for n = if n == 0 then (λ _. blocked) else pure tt

unfoldable pub pop_queue : Ptr → Cmd (Option QueueData)
pop_queue p = if p == null then pure none else do
  s ← read (λ h. h.sentinel) p
  if s == null then pure none else do n ← read (λ h. h.count) s; wait_for n; unlink_last s

unfoldable pub isempty_queue : Ptr → Cmd Bool
isempty_queue p = if p == null then pure true else do
  s ← read (λ h. h.sentinel) p
  if s == null then pure true else do n ← read (λ h. h.count) s; pure (n == 0)

unfoldable pub isfull_queue : Ptr → Cmd Bool
isfull_queue p = do empty ← isempty_queue p; pure (not empty)

-- the loop of flushQueue
pub flush_loop : ℕ → Ptr → Cmd (Unit {0})
flush_loop zero p = λ _. out_of_fuel
flush_loop (suc fuel) p = do
  full ← isfull_queue p
  if full then (do _ ← pop_queue p; flush_loop fuel p) else pure tt

-- The broadcast at the end reads the sentinel.
unfoldable pub flush_queue : ℕ → Ptr → Cmd QueueExeStatus
flush_queue fuel p =
    if p == null
    then pure queue_null_pointer_as_in_parameter
    else do flush_loop fuel p; _ ← read (λ h. h.sentinel) p; pure queue_success

unfoldable pub delete_queue : ℕ → Ptr → Cmd QueueExeStatus
delete_queue fuel p = if p == null then pure queue_null_pointer_as_in_parameter else do
  s ← read (λ h. h.sentinel) p
  if s == null
      then pure queue_null_pointer_as_in_parameter
      else do _ ← flush_queue fuel p; free p; pure queue_success

unfoldable pub get_nextitr_queue : Ptr → Cmd (Option QueueData)
get_nextitr_queue p = if p == null then pure none else do
  s ← read (λ h. h.sentinel) p
  n ← read (λ h. h.count) s
  if n == 0 then pure none else do
    i ← read (λ h. h.iterator) s
    following ← read (λ h. h.next) i
    if following == s
        then pure none
        else do set_iterator s following; item ← read (λ h. h.item) following; pure (some item)

-- the macro SetIterToFirstQueue
unfoldable pub set_iter_to_first_queue : Ptr → Cmd (Unit {0})
set_iter_to_first_queue p = do s ← read (λ h. h.sentinel) p; set_iterator s s
