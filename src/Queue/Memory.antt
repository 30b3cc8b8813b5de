-- ===== src/Queue/Memory.antt =====
-- The heap of src/queue.c, one map for each field of `struct tag_Queue`, and commands over it.
use ebotula.Prelude.{
  ℕ, Bool, true, false, Option, none, some, ◌==◌, leb, take, if◌then◌else◌, length,
}
use ebotula.CString.{Bytes}

abbrev pub Ptr : Type 0
Ptr = ℕ

abbrev pub null : Ptr
null = 0

-- `bytes` is the pointer `data`: NULL or the bytes behind it
pub record QueueData : Type 0 where
  pub t_size : ℕ
  pub bytes : Option Bytes

pub record Heap : Type 0 where
  pub alive : Ptr → Bool
  pub next : Ptr → Ptr
  pub prev : Ptr → Ptr
  pub sentinel : Ptr → Ptr
  pub iterator : Ptr → Ptr
  pub item : Ptr → QueueData
  pub count : Ptr → ℕ

abbrev pub update {ℓ} : {A : Type ℓ} → (Ptr → A) → Ptr → A → Ptr → A
update f p v q = if q == p then v else f q

-- How a command ends: with a result, by an access of a node that is not allocated, by a wait for an
-- item that does not come, or, for a loop, at the end of its fuel.
pub data Run (A : Type 0) : Type 0 where
  fault blocked out_of_fuel : Run A
  ok : A → Heap → Run A

-- what a run does to the heap that it starts with
abbrev pub Cmd : Type 0 → Type 0
Cmd Result = Heap → Run Result

-- a run goes on from the heap that the one in front of it has left
abbrev pub resume : {A B : Type 0} → (A → Cmd B) → Run A → Run B
resume next fault = fault
resume next blocked = blocked
resume next out_of_fuel = out_of_fuel
resume next (ok result left) = next result left

infixl 5 ◌>>=◌
abbrev pub ◌>>=◌ : {A B : Type 0} → Cmd A → (A → Cmd B) → Cmd B
first >>= next = λ start. resume next (first start)

infixl 5 ◌>>◌
abbrev pub ◌>>◌ : {A B : Type 0} → Cmd A → Cmd B → Cmd B
first >> second = first >>= (λ _. second)

abbrev pub pure : {Result : Type 0} → Result → Cmd Result
pure result start = ok result start

abbrev pub Done : Type 0
Done = Unit {0}

-- a field of the node at `p`
abbrev pub read : {A : Type 0} → (Heap → Ptr → A) → Ptr → Cmd A
read field p h = if h.alive p then ok (field h p) h else fault

abbrev pub set_next : Ptr → Ptr → Cmd Done
set_next p q h = if h.alive p then ok tt (record h { next = update h.next p q }) else fault

abbrev pub set_prev : Ptr → Ptr → Cmd Done
set_prev p q h = if h.alive p then ok tt (record h { prev = update h.prev p q }) else fault

abbrev pub set_iterator : Ptr → Ptr → Cmd Done
set_iterator p q h =
    if h.alive p then ok tt (record h { iterator = update h.iterator p q }) else fault

abbrev pub set_count : Ptr → ℕ → Cmd Done
set_count p n h = if h.alive p then ok tt (record h { count = update h.count p n }) else fault

-- `malloc` of a node, with its fields; those that the code does not write get a value too
abbrev pub allocate : Ptr → (next prev sentinel iterator : Ptr) → QueueData → Cmd Done
allocate p next prev sentinel iterator item h = ok tt (record {
  alive = update h.alive p true;
  next = update h.next p next;
  prev = update h.prev p prev;
  sentinel = update h.sentinel p sentinel;
  iterator = update h.iterator p iterator;
  item = update h.item p item;
  count = update h.count p 0;
})

abbrev pub free : Ptr → Cmd Done
free p h = if h.alive p then ok tt (record h { alive = update h.alive p false }) else fault

-- the copy that pushQueue stores: memcpy reads `t_size` bytes, and NULL stands for no bytes
abbrev pub copied : QueueData → Option Bytes → QueueData
copied item none = record { t_size = item.t_size; bytes = none }
copied item (some s) = record {
  t_size = item.t_size;
  bytes = if item.t_size == 0 then none else some (take item.t_size s);
}

abbrev pub readable : QueueData → Option Bytes → Bool
readable item none = true
readable item (some s) = leb item.t_size (length s)

abbrev pub copy_data : QueueData → Cmd QueueData
copy_data item h = if readable item item.bytes then ok (copied item item.bytes) h else fault
