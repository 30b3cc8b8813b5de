-- ===== src/CallbackList/Edit.antt =====
-- Insertion and removal in src/callbacklist.c keep the list well formed.
use ebotula.Prelude.{
  ◌≡◌, ◌≢◌, refl, true, false, none, [], ◌∷◌, ◌++◌, ◌==◌, not, ◌&&◌, ◌||◌, Bool, arith,
}
use ebotula.CString.Outcome.{done}
use ebotula.Bot.{CallbackItem}
use ebotula.Queue.Memory.{Ptr, null, update}
use ebotula.CallbackList.Memory.{Store}
use ebotula.CallbackList.Segment.{Cells, last_of, IsCallbackList, size-cells, test_ne, test_self}
use ebotula.CallbackList.Insert.{linked, Grown}
use ebotula.CallbackList.Behind.{
  behind_tail, behind_tail-Grown, insert_next-tail, behind_inner, behind_inner-Grown,
  insert_next-inner,
}
use ebotula.CallbackList.Before.{
  before_head, before_head-Grown, insert_prev-head, before_inner, before_inner-Grown,
  insert_prev-inner,
}
use ebotula.CallbackList.Remove.{Removed, remove-Shrunk}
use ebotula.CallbackList.{
  insert_next_callback_dlist, insert_prev_callback_dlist, remove_callback_dlist,
}

-- the insertion of `v` in the node `n` succeeds and leaves the cells `cs`
abbrev pub InsertedNext : Store → Ptr → Ptr → CallbackItem → Cells → Type 0
InsertedNext s n e v cs =
    (t : Store) × (insert_next_callback_dlist n e v s ≡ done (true, t)) × Grown s n cs t

abbrev pub InsertedPrev : Store → Ptr → Ptr → CallbackItem → Cells → Type 0
InsertedPrev s n e v cs =
    (t : Store) × (insert_prev_callback_dlist n e v s ≡ done (true, t)) × Grown s n cs t

-- the only node of a list that was empty
abbrev only : Store → Ptr → CallbackItem → Store
only s n v =
    linked s n v (update (update s.prev n null) n null) (update (update s.next n null) n null) n n

and_false : (b : Bool) → (b && false) ≡ false
and_false true = refl
and_false false = refl

or_true : (b : Bool) → (b || true) ≡ true
or_true true = refl
or_true false = refl

module _ {s : Store} (n : Ptr) (v : CallbackItem) (ne : n ≢ null) (dead : s.alive n ≡ false) where
  insert_next-Grown :
      (xs : Cells) (e : Ptr) (d : CallbackItem) (ys : Cells)
      → IsCallbackList s (xs ++ (e, d) ∷ ys)
      → InsertedNext s n e v (xs ++ (e, d) ∷ (n, v) ∷ ys)
  insert_next-Grown xs e d [] l = (
    behind_tail s e n v,
    insert_next-tail s xs e d n v ne dead l,
    behind_tail-Grown s xs e d n v ne dead l,
  )
  insert_next-Grown xs e d ((q, c) ∷ ys) l = (
    behind_inner s e q n v,
    insert_next-inner s xs e d q c ys n v ne dead l,
    behind_inner-Grown s xs e d q c ys n v ne dead l,
  )

  insert_prev-Grown :
      (xs : Cells) (e : Ptr) (d : CallbackItem) (ys : Cells)
      → IsCallbackList s (xs ++ (e, d) ∷ ys)
      → InsertedPrev s n e v (xs ++ (n, v) ∷ (e, d) ∷ ys)
  insert_prev-Grown [] e d ys l = (
    before_head s e n v,
    insert_prev-head s e d ys n v ne dead l,
    before_head-Grown s e d ys n v ne dead l,
  )
  insert_prev-Grown ((x, w) ∷ xs) e d ys l = (
    before_inner s (last_of x xs) e n v,
    insert_prev-inner s x w xs e d ys n v ne dead l,
    before_inner-Grown s x w xs e d ys n v ne dead l,
  )

  only-Grown : IsCallbackList s [] → Grown s n ((n, v) ∷ []) (only s n v)
  only-Grown l =
      let sn = test_self n in
      (
        record {
          head_first = refl;
          tail_last = refl;
          size_length = let z = l.size_length in omega arith;
          distinct = (refl, tt);
          nodes = (rw sn refl, ne, rw sn refl, rw sn refl, rw sn refl, tt);
        },
        λ p. refl,
        refl,
        refl,
      )

  insert-only :
      (e : Ptr)
      → IsCallbackList s []
      → (insert_next_callback_dlist n e v s ≡ done (true, only s n v))
        × (insert_prev_callback_dlist n e v s ≡ done (true, only s n v))
  unfolding insert_next_callback_dlist insert_prev_callback_dlist
  insert-only e l =
      let sn = test_self n in
      let empty : (s.size == 0) ≡ true = let z = l.size_length in ground arith in
      let no_null = and_false (e == null) in
      let n_ok = test_ne n null ne in
      (
        rw (empty, no_null, n_ok) (rw sn (rw sn refl)),
        rw (empty, no_null, n_ok) (rw sn (rw sn refl)),
      )

-- what insert_next and insert_prev refuse, and with it nothing changes
insert-refused :
    {s : Store} (n e : Ptr) (v : CallbackItem)
    → ((e == null && not (s.size == 0)) || n == null) ≡ true
    → (insert_next_callback_dlist n e v s ≡ done (false, s))
      × (insert_prev_callback_dlist n e v s ≡ done (false, s))
unfolding insert_next_callback_dlist insert_prev_callback_dlist
insert-refused n e v h = (rw h refl, rw h refl)

-- In an empty list both make the only node.
pub insert-empty :
    {s : Store} (n : Ptr) (v : CallbackItem) (e : Ptr)
    → n ≢ null
    → s.alive n ≡ false
    → IsCallbackList s []
    → InsertedNext s n e v ((n, v) ∷ []) × InsertedPrev s n e v ((n, v) ∷ [])
insert-empty {s} n v e ne dead l =
    let (an, ap) = insert-only n v ne dead e l in
    let g = only-Grown n v ne dead l in ((only s n v, an, g), (only s n v, ap, g))

-- With memory that is not in use, insert_next and insert_prev put a new node behind or in front of
-- any node of a well-formed callback list and return 0: the list is then well formed with the new
-- item at that place, and nothing else is allocated, freed or destroyed. In such a list, which has a
-- node, both return -1 and change nothing with NULL for the node, and also without memory.
pub insert-IsCallbackList :
    {s : Store} (n : Ptr) (v : CallbackItem) (xs : Cells) (e : Ptr) (d : CallbackItem) (ys : Cells)
    → n ≢ null
    → s.alive n ≡ false
    → IsCallbackList s (xs ++ (e, d) ∷ ys)
    → InsertedNext s n e v (xs ++ (e, d) ∷ (n, v) ∷ ys)
      × InsertedPrev s n e v (xs ++ (n, v) ∷ (e, d) ∷ ys)
      × (insert_next_callback_dlist n null v s ≡ done (false, s))
      × (insert_prev_callback_dlist n null v s ≡ done (false, s))
      × (insert_next_callback_dlist null e v s ≡ done (false, s))
      × (insert_prev_callback_dlist null e v s ≡ done (false, s))
insert-IsCallbackList {s} n v xs e d ys ne dead l =
    let (rn, rp) = insert-refused {s = s} null e v (or_true (e == null && not (s.size == 0))) in
    let (qn, qp) = insert-refused {s = s} n null v (rw (size-cells s xs e d ys l) refl) in
    (
      insert_next-Grown n v ne dead xs e d ys l,
      insert_prev-Grown n v ne dead xs e d ys l,
      qn,
      qp,
      rn,
      rp,
    )

-- removeCallbackDList takes any node out of a well-formed callback list and returns its item and
-- 0: the list is then well formed with the other items in their order, and exactly that node is
-- freed. With the node NULL it returns -1 and changes nothing.
pub remove-IsCallbackList :
    {s : Store} (xs : Cells) (e : Ptr) (d : CallbackItem) (ys : Cells)
    → IsCallbackList s (xs ++ (e, d) ∷ ys)
    → Removed s e d (xs ++ ys) × (remove_callback_dlist null s ≡ done (none, s))
unfolding remove_callback_dlist
remove-IsCallbackList xs e d ys l = (remove-Shrunk xs e d ys l, refl)
