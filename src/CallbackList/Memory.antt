-- ===== src/CallbackList/Memory.antt =====
-- The memory of src/callbacklist.c: the nodes (`struct tag_Callback_DList_Item` of
-- src/include/callbacklist.h), one map for each field, and the one list (`CallbackDList`) that the
-- program has. The functions run under the mutex of the list, so a call is one step.
use ebotula.Prelude.{ℕ, Bool, true, false, List, if◌then◌else◌}
use ebotula.CString.Outcome.{done, fault}
use ebotula.Bot.{CallbackItem}
use ebotula.Bot.Steps.{Act, Done}
use ebotula.Queue.Memory.{Ptr, null, update}

-- `has_destroy` tells whether the function pointer `destroy` is set, and `destroyed` are the items
-- that it was called on, the latest first.
pub record Store : Type 0 where
  pub alive : Ptr → Bool
  pub item : Ptr → CallbackItem
  pub prev : Ptr → Ptr
  pub next : Ptr → Ptr
  pub size : ℕ
  pub head : Ptr
  pub tail : Ptr
  pub has_destroy : Bool
  pub destroyed : List CallbackItem

abbrev pub list_field : {A : Type 0} → (Store → A) → Act Store A
list_field f s = done (f s, s)

-- a field of the node at `p`
abbrev pub field : {A : Type 0} → (Store → Ptr → A) → Ptr → Act Store A
field f p s = if s.alive p then done (f s p, s) else fault

abbrev pub set_next : Ptr → Ptr → Act Store Done
set_next p q s = if s.alive p then done (tt, record s { next = update s.next p q }) else fault

abbrev pub set_prev : Ptr → Ptr → Act Store Done
set_prev p q s = if s.alive p then done (tt, record s { prev = update s.prev p q }) else fault

abbrev pub set_head : Ptr → Act Store Done
set_head p s = done (tt, record s { head = p })

abbrev pub set_tail : Ptr → Act Store Done
set_tail p s = done (tt, record s { tail = p })

abbrev pub set_size : ℕ → Act Store Done
set_size n s = done (tt, record s { size = n })

-- a new node with its data; the pointers in it are not set yet, and get a value too
abbrev pub allocate : Ptr → CallbackItem → Act Store Done
allocate p content s = done (
  tt,
  record s {
    alive = update s.alive p true;
    item = update s.item p content;
    prev = update s.prev p null;
    next = update s.next p null;
  },
)

abbrev pub free : Ptr → Act Store Done
free p s = if s.alive p then done (tt, record s { alive = update s.alive p false }) else fault
