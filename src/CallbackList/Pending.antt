-- ===== src/CallbackList/Pending.antt =====
-- src/callbacklist.c as src/handles.c and src/command.c use it: an item is put on at the tail, and
-- the first item for a nick name is searched from the head and taken off. On the items this is
-- `add_callback` of Bot and `take_callback` of Event.
use ebotula.Prelude.{
  ℕ, ◌≤◌, ◌≡◌, ◌≢◌, refl, sym, subst, ap, ◌∙◌, ◌⊎◌, inl, inr, true, false, ◌==◌, Option, none, some,
  List, [], ◌∷◌, ◌++◌, arith, length, Bool-cases, append_assoc,
}
use ebotula.CString.{Bytes}
use ebotula.CString.Outcome.{done}
use ebotula.Bot.{CallbackItem, same_name}
use ebotula.Event.{take_callback}
use ebotula.Queue.Memory.{Ptr, null}
use ebotula.CallbackList.Memory.{Store}
use ebotula.CallbackList.Segment.{
  Cells, IsCallbackList, alive-has, has-append, Segment, last-append, unsnoc,
}
use ebotula.CallbackList.Remove.{Shrunk}
use ebotula.CallbackList.Edit.{
  InsertedNext, insert-empty, insert-IsCallbackList, remove-IsCallbackList,
}
use ebotula.CallbackList.Search.{first_for, search-first_for}
use ebotula.CallbackList.{remove_callback_dlist, search_nickname_from_callback_dlist}

abbrev pub items_of : Cells → List CallbackItem
items_of [] = []
items_of ((_, d) ∷ cs) = d ∷ items_of cs

pub items_of-append : (xs ys : Cells) → items_of (xs ++ ys) ≡ items_of xs ++ items_of ys
items_of-append [] ys = refl
items_of-append ((_, d) ∷ xs) ys = ap (λ ds. d ∷ ds) (items_of-append xs ys)

-- where the first node for a nick name stands
abbrev Found : Bytes → Cells → Type 0
Found nick cs =
    (xs : Cells) × (p : Ptr) × (d : CallbackItem) × (ys : Cells) × (cs ≡ xs ++ (p, d) ∷ ys)
    × (first_for nick cs ≡ p)
    × (take_callback nick (items_of cs) ≡ some (d, items_of (xs ++ ys)))

find :
    (nick : Bytes) (cs : Cells)
    → ((first_for nick cs ≡ null) × (take_callback nick (items_of cs) ≡ none)) ⊎ Found nick cs
unfolding first_for take_callback
find nick [] = inl (refl, refl)
find nick ((q, c) ∷ cs) = elim (Bool-cases (same_name c.nickname nick)) [
  | inl m ↦ inr ([], q, c, cs, refl, rw m refl, rw m refl)
  | inr m ↦ elim (find nick cs) [
    | inl (f, t) ↦ inl (rw m f, rw (m, t) refl)
    | inr (xs, p, d, ys, e, f, t) ↦
        inr ((q, c) ∷ xs, p, d, ys, ap (λ xs. (q, c) ∷ xs) e, rw m f, rw (m, t) refl)
  ]
]

-- What a search from the head and a removal of what it found do, for what `take_callback` says.
abbrev pub TakenFrom : Store → ℕ → Bytes → Option (CallbackItem × List CallbackItem) → Type 0
TakenFrom s fuel nick none =
    search_nickname_from_callback_dlist fuel s.head nick s ≡ done (some null, s)
TakenFrom s fuel nick (some (item, left)) =
    (p : Ptr) × (t : Store) × (cs : Cells) × (search_nickname_from_callback_dlist fuel s.head nick s
      ≡ done (some p, s))
    × (p ≢ null)
    × (remove_callback_dlist p s ≡ done (some item, t))
    × Shrunk s p cs t
    × (items_of cs ≡ left)

-- the search from the head looks at the whole list
search-head :
    {s : Store} (fuel : ℕ) (nick : Bytes) (cs : Cells)
    → IsCallbackList s cs
    → length cs ≤ fuel
    → search_nickname_from_callback_dlist fuel s.head nick s ≡ done (some (first_for nick cs), s)
unfolding search_nickname_from_callback_dlist first_for
search-head {s} fuel nick [] l h =
    let empty : (s.head == null) ≡ true = let e = l.head_first in ground arith in rw empty refl
search-head {s} fuel nick ((e, d) ∷ cs) l h =
    ap (λ q. search_nickname_from_callback_dlist fuel q nick s) l.head_first
    ∙ search-first_for fuel nick [] e d cs l h

found_ne_null :
    (s : Store) (xs : Cells) (p : Ptr) (d : CallbackItem) (ys : Cells)
    → Segment s null (xs ++ (p, d) ∷ ys) null
    → p ≢ null
found_ne_null s xs p d ys g =
    (alive-has s null (xs ++ (p, d) ∷ ys) null p g
      (ground (arith, has-append p xs ((p, d) ∷ ys)))).1

search-Taken :
    {s : Store} (fuel : ℕ) (nick : Bytes) (cs : Cells)
    → IsCallbackList s cs
    → length cs ≤ fuel
    → TakenFrom s fuel nick (take_callback nick (items_of cs))
search-Taken {s} fuel nick cs l h = elim (find nick cs) [
  | inl (f, t) ↦
      subst (TakenFrom s fuel nick) (sym t)
        (search-head fuel nick cs l h ∙ ap (λ p. done (some p, s)) f)
  | inr (xs, p, d, ys, e, f, t) ↦
      let l' = subst (IsCallbackList s) e l in
      let (g, ran, shrunk) = (remove-IsCallbackList xs p d ys l').0 in
      subst (TakenFrom s fuel nick) (sym t) (
        p,
        g,
        xs ++ ys,
        search-head fuel nick cs l h ∙ ap (λ p. done (some p, s)) f,
        found_ne_null s xs p d ys l'.nodes,
        ran,
        shrunk,
        refl,
      )
]

-- an item goes on behind the tail
insert_next-tail :
    {s : Store} (n : Ptr) (v : CallbackItem) (cs : Cells)
    → IsCallbackList s cs
    → n ≢ null
    → s.alive n ≡ false
    → InsertedNext s n s.tail v (cs ++ (n, v) ∷ [])
insert_next-tail {s} n v [] l ne dead = (insert-empty n v s.tail ne dead l).0
insert_next-tail {s} n v (c ∷ cs) l ne dead =
    let (xs, q, e, h) = unsnoc c cs in
    let l' = subst (IsCallbackList s) h l in
    let at : q ≡ s.tail = sym (l'.tail_last ∙ last-append null xs ((q, e) ∷ [])) in
    let cells : xs ++ (q, e) ∷ (n, v) ∷ [] ≡ (c ∷ cs) ++ (n, v) ∷ [] =
      sym (append_assoc xs ((q, e) ∷ []) ((n, v) ∷ [])) ∙ ap (λ ys. ys ++ (n, v) ∷ []) (sym h) in
    let made = (insert-IsCallbackList n v xs q e [] ne dead l').0 in
    subst (λ p. InsertedNext s n p v ((c ∷ cs) ++ (n, v) ∷ [])) at
      (subst (InsertedNext s n q v) cells made)

-- The callback list in memory does what the other parts of the bot take it for. On a well-formed
-- list, a search from the head and the removal of what it found return the item that
-- `take_callback` takes from the list of the items, leave a well-formed list of the items that it
-- leaves, and free exactly that node; the search returns NULL where `take_callback` finds none. An
-- insertion behind the tail, with memory that is not in use, leaves a well-formed list with the
-- new item at the end, as `add_callback` does. The search ends, with as much fuel as there are
-- items.
pub take_callback-refines :
    {s : Store} (fuel : ℕ) (nick : Bytes) (n : Ptr) (v : CallbackItem) (cs : Cells)
    → IsCallbackList s cs
    → length cs ≤ fuel
    → n ≢ null
    → s.alive n ≡ false
    → TakenFrom s fuel nick (take_callback nick (items_of cs))
      × InsertedNext s n s.tail v (cs ++ (n, v) ∷ [])
      × (items_of (cs ++ (n, v) ∷ []) ≡ items_of cs ++ v ∷ [])
take_callback-refines fuel nick n v cs l h ne dead = (
  search-Taken fuel nick cs l h,
  insert_next-tail n v cs l ne dead,
  items_of-append cs ((n, v) ∷ []),
)
