-- ===== src/CallbackList/Destroy.antt =====
-- destroyCallbackDList of src/callbacklist.c: the loop ends, and no node and no item is left.
use ebotula.Prelude.{
  ℕ, zero, suc, ◌<◌, ◌≡◌, refl, sym, subst, ap, inl, inr, Bool-cases, ◌∙◌, Bool, true, false, ◌==◌,
  some, List, [], ◌∷◌, ◌++◌, arith, length, length-append, if◌then◌else◌, append-nil, append_assoc,
}
use ebotula.CString.Outcome.{done}
use ebotula.Bot.{CallbackItem}
use ebotula.Bot.Steps.{go_on}
use ebotula.Queue.Memory.{Ptr, null, update}
use ebotula.CallbackList.Memory.{Store}
use ebotula.CallbackList.Segment.{
  Cells, has, IsCallbackList, has-append, last-append, size-cells, unsnoc, Segment-frame,
}
use ebotula.CallbackList.Remove.{Removed, remove-Shrunk}
use ebotula.CallbackList.Pending.{items_of, items_of-append}
use ebotula.CallbackList.{remove_callback_dlist, destroy_item, destroy_loop, destroy_callback_dlist}

-- Every node of `cs` is freed, and its item is destroyed if there is a function for it.
abbrev pub Destroyed : Store → Cells → Store → Type 0
Destroyed s cs t =
    ((p : Ptr) → t.alive p ≡ (if has p cs then false else s.alive p))
    × (t.destroyed ≡ (if s.has_destroy then items_of cs ++ s.destroyed else s.destroyed))

none_destroyed : (b : Bool) (ds : List CallbackItem) → ds ≡ (if b then ds else ds)
none_destroyed true ds = refl
none_destroyed false ds = refl

destroy_item-done :
    (s : Store) (d : CallbackItem)
    → destroy_item (some d) s
      ≡ done (tt, record s { destroyed = if s.has_destroy then d ∷ s.destroyed else s.destroyed })
destroy_item-done s d = elim (Bool-cases s.has_destroy) [ inl e ↦ rw e refl | inr e ↦ rw e refl ]

-- the list is not touched by the call of `destroy`
IsCallbackList-destroyed :
    (s : Store) (ds : List CallbackItem) (cs : Cells)
    → IsCallbackList s cs
    → IsCallbackList (record s { destroyed = ds }) cs
IsCallbackList-destroyed s ds cs l = record {
  head_first = l.head_first;
  tail_last = l.tail_last;
  size_length = l.size_length;
  distinct = l.distinct;
  nodes =
      Segment-frame s (record s { destroyed = ds }) null cs null l.nodes
        (λ p h. ((refl, refl), refl, refl));
}

abbrev Ended : ℕ → Store → Cells → Type 0
Ended fuel s cs = (t : Store) × (destroy_loop fuel s ≡ done (true, t)) × Destroyed s cs t

-- one item, and then the others
Destroyed-snoc :
    (s u t : Store) (xs : Cells) (q : Ptr) (d : CallbackItem)
    → ((p : Ptr) → u.alive p ≡ update s.alive q false p)
    → u.has_destroy ≡ s.has_destroy
    → u.destroyed ≡ (if s.has_destroy then d ∷ s.destroyed else s.destroyed)
    → Destroyed u xs t
    → Destroyed s (xs ++ (q, d) ∷ []) t
Destroyed-snoc s u t xs q d al hd ds (alive, gone) = (
  λ p. ground (arith, alive p, al p, has-append p xs ((q, d) ∷ [])),
  elim (Bool-cases s.has_destroy) [
    | inl e ↦
        gone
        ∙ rw (hd, e, items_of-append xs ((q, d) ∷ []))
            (rw (append_assoc (items_of xs) (d ∷ []) s.destroyed)
              (ap (λ ys. items_of xs ++ ys) (ds ∙ rw e refl)))
    | inr e ↦ gone ∙ rw (hd, e) (ds ∙ rw e refl)
  ],
)

destroy_loop-step :
    (fuel : ℕ) (s r : Store) (d : CallbackItem)
    → (s.size == 0) ≡ false
    → remove_callback_dlist s.tail s ≡ done (some d, r)
    → destroy_loop (suc fuel) s
      ≡ destroy_loop fuel
          (record r { destroyed = if r.has_destroy then d ∷ r.destroyed else r.destroyed })
unfolding destroy_loop
destroy_loop-step fuel s r d some_left ran =
    rw (some_left, ran) (ap (go_on (λ _. destroy_loop fuel)) (destroy_item-done r d))

destroy_loop-Ended :
    (fuel : ℕ) (s : Store) (cs : Cells) → IsCallbackList s cs → length cs < fuel → Ended fuel s cs
unfolding destroy_loop
destroy_loop-Ended zero s cs l f = absurd (omega arith)
destroy_loop-Ended (suc fuel) s [] l f =
    let empty : (s.size == 0) ≡ true = let z = l.size_length in ground arith in
    (s, rw empty refl, (λ p. refl, none_destroyed s.has_destroy s.destroyed))
destroy_loop-Ended (suc fuel) s (c ∷ cs) l f =
    let (xs, q, d, h) = unsnoc c cs in
    let l' = subst (IsCallbackList s) h l in
    let at : q ≡ s.tail = sym (l'.tail_last ∙ last-append null xs ((q, d) ∷ [])) in
    let (r, ran, (is, al, hd, ds)) =
      subst (Removed s q d) (append-nil xs) (remove-Shrunk xs q d [] l') in
    let u = record r { destroyed = if r.has_destroy then d ∷ r.destroyed else r.destroyed } in
    let shorter : length xs < fuel =
      let n = ap length h in omega (arith, length-append xs ((q, d) ∷ [])) in
    let (t, rest, gone) =
      destroy_loop-Ended fuel u xs (IsCallbackList-destroyed r u.destroyed xs is) shorter in
    subst (Ended (suc fuel) s) (sym h) (
      t,
      destroy_loop-step fuel s r d (size-cells s xs q d [] l')
            (subst (λ p. remove_callback_dlist p s ≡ done (some d, r)) at ran)
          ∙ rest,
      Destroyed-snoc s u t xs q d al hd (rw (hd, ds) refl) gone,
    )

-- destroyCallbackDList on a well-formed list ends, with fuel beyond the number of its items: it
-- frees exactly the nodes of the list, calls the function `destroy`, when it is set, once on each
-- item, the last item first, and leaves the list empty with all its fields cleared.
pub destroy_callback_dlist-Destroyed :
    {s : Store} (fuel : ℕ) (cs : Cells)
    → IsCallbackList s cs
    → length cs < fuel
    → (t : Store) × (destroy_callback_dlist fuel s ≡ done (true, t))
      × Destroyed s cs t
      × IsCallbackList t []
      × (t.has_destroy ≡ false)
unfolding destroy_callback_dlist
destroy_callback_dlist-Destroyed {s} fuel cs l f =
    let (t, ran, gone) = destroy_loop-Ended fuel s cs l f in
    (
      record t { size = 0; has_destroy = false; head = null; tail = null },
      rw ran refl,
      gone,
      record { head_first = refl; tail_last = refl; size_length = refl; distinct = tt; nodes = tt },
      refl,
    )
