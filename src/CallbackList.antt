-- ===== src/CallbackList.antt =====
-- src/callbacklist.c: the doubly linked list of the callbacks that wait for an answer of the
-- server. The results of `malloc` are arguments, NULL is the address 0, and loops run on fuel.
pub mod Memory
pub mod Segment
mod Insert
mod Behind
mod Before
mod Remove
pub mod Edit
pub mod Search
pub mod Destroy
pub mod Pending
mod Tests
use ebotula.Prelude.{
  ℕ, zero, suc, ◌+◌, ◌-◌, Bool, true, false, not, ◌&&◌, ◌||◌, List, [], ◌∷◌, Option, none, some,
  ◌==◌, if◌then◌else◌,
}
use ebotula.CString.{Bytes}
use ebotula.CString.Outcome.{done}
use ebotula.Bot.{CallbackItem, same_name}
use ebotula.Bot.Steps.{Act, Done, pure, ◌>>=◌, ◌>>◌}
use ebotula.Queue.Memory.{Ptr, null}
use Memory.{
  Store, list_field, field, set_next, set_prev, set_head, set_tail, set_size, allocate, free,
}

unfoldable pub init_extended_callback_dlist : Bool → Act Store Done
init_extended_callback_dlist has_destroy s =
    done (tt, record s { size = 0; has_destroy = has_destroy; head = null; tail = null })

-- the first node of a list
abbrev pub link_only : Ptr → Act Store Done
link_only new = do set_head new; set_prev new null; set_next new null; set_tail new

abbrev pub link_behind : Ptr → Ptr → Act Store Done
link_behind element new = do
  behind ← field (λ s. s.next) element
  set_next new behind
  set_prev new element
  if behind == null then set_tail new else set_prev behind new
  set_next element new

abbrev pub link_before : Ptr → Ptr → Act Store Done
link_before element new = do
  set_next new element
  before ← field (λ s. s.prev) element
  set_prev new before
  if before == null then set_head new else set_next before new
  set_prev element new

-- What insert_next and insert_prev share; `new` is the result of malloc. The result is `true` for
-- 0 and `false` for -1.
abbrev pub insert_by : (Ptr → Ptr → Act Store Done) → Ptr → Ptr → CallbackItem → Act Store Bool
insert_by link new element content = do
  n ← list_field (λ s. s.size)
  if (element == null && not (n == 0)) || new == null then pure false else do
    allocate new content
    if n == 0 then link_only new else link element new
    set_size (n + 1)
    pure true

unfoldable pub insert_next_callback_dlist : Ptr → Ptr → CallbackItem → Act Store Bool
insert_next_callback_dlist = insert_by link_behind

unfoldable pub insert_prev_callback_dlist : Ptr → Ptr → CallbackItem → Act Store Bool
insert_prev_callback_dlist = insert_by link_before

abbrev pub unlink_head : Ptr → Act Store Done
unlink_head element = do
  behind ← field (λ s. s.next) element
  set_head behind
  if behind == null then set_tail null else set_prev behind null

abbrev pub unlink_inner : Ptr → Act Store Done
unlink_inner element = do
  before ← field (λ s. s.prev) element
  behind ← field (λ s. s.next) element
  set_next before behind
  if behind == null then set_tail before else set_prev behind before

-- The result is the item of the node, or `none` for -1.
unfoldable pub remove_callback_dlist : Ptr → Act Store (Option CallbackItem)
remove_callback_dlist element = do
  n ← list_field (λ s. s.size)
  if element == null || n == 0 then pure none else do
    content ← field (λ s. s.item) element
    first ← list_field (λ s. s.head)
    if element == first then unlink_head element else unlink_inner element
    free element
    set_size (n - 1)
    pure (some content)

-- A loop of the search: it stops at a node for the nick name, or at the last one that `step` leads
-- to. The result `none` is the end of the fuel.
unfoldable pub walk : (Store → Ptr → Ptr) → Bytes → ℕ → Ptr → Act Store (Option Ptr)
walk step nick zero p = pure none
walk step nick (suc fuel) p = do
  content ← field (λ s. s.item) p
  if same_name content.nickname nick then pure (some p) else do
    following ← field step p
    if following == null then pure (some p) else walk step nick fuel following

-- the comparison behind the loops
abbrev pub final_match : Bytes → Option Ptr → Act Store (Option Ptr)
final_match nick none = pure none
final_match nick (some p) = do
  content ← field (λ s. s.item) p
  pure (some (if same_name content.nickname nick then p else null))

-- The result is the node, `some null` for NULL, and `none` at the end of the fuel.
unfoldable pub search_nickname_from_callback_dlist : ℕ → Ptr → Bytes → Act Store (Option Ptr)
search_nickname_from_callback_dlist fuel element nick = do
  first ← list_field (λ s. s.head)
  last ← list_field (λ s. s.tail)
  n ← list_field (λ s. s.size)
  if first == null || last == null || n == 0 || element == null then pure (some null) else do
    before ← field (λ s. s.prev) element
    behind ← field (λ s. s.next) element
    stop ←
        walk (if not (before == null) && behind == null then (λ s. s.prev) else (λ s. s.next)) nick
          fuel element
    final_match nick stop

-- destroy(data), when the pointer is set and there is an item
abbrev pub destroy_item : Option CallbackItem → Act Store Done
destroy_item none s = done (tt, s)
destroy_item (some content) s =
    done (tt, if s.has_destroy then record s { destroyed = content ∷ s.destroyed } else s)

-- the loop of destroyCallbackDList; `false` is the end of the fuel
unfoldable pub destroy_loop : ℕ → Act Store Bool
destroy_loop zero = pure false
destroy_loop (suc fuel) = do
  n ← list_field (λ s. s.size)
  if n == 0 then pure true else do
    last ← list_field (λ s. s.tail)
    content ← remove_callback_dlist last
    destroy_item content
    destroy_loop fuel

-- the memset at the end
abbrev pub clear : Act Store Done
clear s = done (tt, record s { size = 0; has_destroy = false; head = null; tail = null })

unfoldable pub destroy_callback_dlist : ℕ → Act Store Bool
destroy_callback_dlist fuel = do ended ← destroy_loop fuel; clear; pure ended
