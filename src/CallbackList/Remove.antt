-- ===== src/CallbackList/Remove.antt =====
-- removeCallbackDList of src/callbacklist.c: what it leaves in memory.
use ebotula.Prelude.{
  ◌-◌, ◌≡◌, ◌≢◌, refl, sym, ◌∙◌, true, false, some, [], ◌∷◌, ◌++◌, ◌==◌, arith, length-append,
  append-nil,
}
use ebotula.CString.Outcome.{done}
use ebotula.Bot.{CallbackItem}
use ebotula.Queue.Memory.{Ptr, null, update}
use ebotula.CallbackList.Memory.{Store}
use ebotula.CallbackList.Segment.{
  Cells, has, last_of, IsCallbackList, last-append, Segment-split, Segment-join, Segment-front,
  Segment-back, Distinct-split, Distinct-join, alive-has, last_of-has, size-cells, test_ne,
  test_self, test_sym,
}
use ebotula.CallbackList.{remove_callback_dlist}

-- the store behind the removal of the node `e`
abbrev unlinked : Store → Ptr → (Ptr → Ptr) → (Ptr → Ptr) → Ptr → Ptr → Store
unlinked s e prevs nexts first last = record s {
  alive = update s.alive e false;
  prev = prevs;
  next = nexts;
  head = first;
  tail = last;
  size = s.size - 1;
}

-- The list is well formed with the cells `cs`, and the node `e` is free.
abbrev pub Shrunk : Store → Ptr → Cells → Store → Type 0
Shrunk s e cs t =
    IsCallbackList t cs
    × ((p : Ptr) → t.alive p ≡ update s.alive e false p)
    × (t.has_destroy ≡ s.has_destroy)
    × (t.destroyed ≡ s.destroyed)

abbrev pub Removed : Store → Ptr → CallbackItem → Cells → Type 0
Removed s e d cs = (t : Store) × (remove_callback_dlist e s ≡ done (some d, t)) × Shrunk s e cs t

out_ne : (e p : Ptr) (cs : Cells) → has e cs ≡ false → has p cs ≡ true → (p == e) ≡ false
out_ne e p cs o h = let ne : p ≢ e = λ i. cc in test_ne p e ne

module _ (s : Store) (e : Ptr) (d : CallbackItem) where
  remove-only : IsCallbackList s ((e, d) ∷ []) → Removed s e d []
  unfolding remove_callback_dlist
  remove-only l =
      let (ae, en, ie, be, fe, _) = l.nodes in
      let some_left = size-cells s [] e d [] l in
      let n = l.size_length in
      (
        unlinked s e s.prev s.next null null,
        rw (test_ne e null en, some_left, ae, l.head_first, test_self e, fe)
            (rw (ae, ie) (rw ae refl)),
        (
          record {
            head_first = refl;
            tail_last = refl;
            size_length = omega arith;
            distinct = tt;
            nodes = tt;
          },
          λ p. refl,
          refl,
          refl,
        ),
      )

  remove-head :
      (q : Ptr) (c : CallbackItem) (ys : Cells)
      → IsCallbackList s ((e, d) ∷ (q, c) ∷ ys)
      → Removed s e d ((q, c) ∷ ys)
  unfolding remove_callback_dlist
  remove-head q c ys l =
      let (ae, en, ie, be, fe, py) = l.nodes in
      let (o, dy) = l.distinct in
      let some_left = size-cells s [] e d ((q, c) ∷ ys) l in
      let n = l.size_length in
      let t = unlinked s e (update s.prev q null) s.next q s.tail in
      (
        t,
        rw (test_ne e null en, some_left, ae, l.head_first, test_self e, fe)
            (rw (ae, test_ne q null py.1, py.0, ie) (rw ae refl)),
        (
          record {
            head_first = refl;
            tail_last = l.tail_last;
            size_length = omega arith;
            distinct = dy;
            nodes =
                Segment-front s t e null ((q, c) ∷ ys) null py dy
                  (λ p h. let f = out_ne e p ((q, c) ∷ ys) o h in ((rw f refl, refl), refl))
                  (λ p h m. rw (test_ne p q m) refl) (rw (test_self q) refl);
          },
          λ p. refl,
          refl,
          refl,
        ),
      )

module _ (s : Store) (x : Ptr) (w : CallbackItem) (xs : Cells) (e : Ptr) (d : CallbackItem) where
  remove-tail : IsCallbackList s (((x, w) ∷ xs) ++ (e, d) ∷ []) → Removed s e d ((x, w) ∷ xs)
  unfolding remove_callback_dlist
  remove-tail l =
      let (px, (ae, en, ie, be, fe, py)) =
        Segment-split s null ((x, w) ∷ xs) ((e, d) ∷ []) null l.nodes in
      let (dx, (o, dy), f) = Distinct-split ((x, w) ∷ xs) ((e, d) ∷ []) l.distinct in
      let some_left = size-cells s ((x, w) ∷ xs) e d [] l in
      let n = l.size_length in
      let b = last_of x xs in
      let (ab, bn) = alive-has s null ((x, w) ∷ xs) e b px (last_of-has x w xs null) in
      let inner : (p : Ptr) → has p ((x, w) ∷ xs) ≡ true → (p == e) ≡ false =
        λ p h. let o = f p h in ground arith in
      let e_x = test_sym x e (inner x (ground arith)) in
      let t = unlinked s e s.prev (update s.next b null) s.head b in
      (
        t,
        rw (test_ne e null en, some_left, ae, l.head_first, e_x)
            (rw (ae, be) (rw (ae, ab, fe) (rw (ae, ie) refl))),
        (
          record {
            head_first = l.head_first;
            tail_last = refl;
            size_length = omega (arith, length-append xs ((e, d) ∷ []));
            distinct = dx;
            nodes =
                Segment-back s t null ((x, w) ∷ xs) e null px dx
                  (λ p h. ((rw (inner p h) refl, refl), refl)) (λ p h m. rw (test_ne p b m) refl)
                  (λ h. rw (test_self b) refl);
          },
          λ p. refl,
          refl,
          refl,
        ),
      )

  remove-inner :
      (q : Ptr) (c : CallbackItem) (ys : Cells)
      → IsCallbackList s (((x, w) ∷ xs) ++ (e, d) ∷ (q, c) ∷ ys)
      → Removed s e d (((x, w) ∷ xs) ++ (q, c) ∷ ys)
  unfolding remove_callback_dlist
  remove-inner q c ys l =
      let (px, (ae, en, ie, be, fe, py)) =
        Segment-split s null ((x, w) ∷ xs) ((e, d) ∷ (q, c) ∷ ys) null l.nodes in
      let (dx, (o, dy), f) = Distinct-split ((x, w) ∷ xs) ((e, d) ∷ (q, c) ∷ ys) l.distinct in
      let some_left = size-cells s ((x, w) ∷ xs) e d ((q, c) ∷ ys) l in
      let n = l.size_length in
      let b = last_of x xs in
      let b_has = last_of-has x w xs null in
      let (ab, bn) = alive-has s null ((x, w) ∷ xs) e b px b_has in
      let inner : (p : Ptr)
          → has p ((x, w) ∷ xs) ≡ true
          → ((p == e) ≡ false) × ((p == q) ≡ false) × (has p ((q, c) ∷ ys) ≡ false) =
        λ p h. let o = f p h in (ground arith, ground arith, ground arith) in
      let e_x = test_sym x e (inner x (ground arith)).0 in
      let t = unlinked s e (update s.prev q b) (update s.next b q) s.head s.tail in
      (
        t,
        rw (test_ne e null en, some_left, ae, l.head_first, e_x)
            (rw (ae, be) (rw (ae, ab, fe, test_ne q null py.1) (rw (py.0, ae, ie) refl))),
        (
          record {
            head_first = l.head_first;
            tail_last =
                l.tail_last
                ∙ last-append x xs ((e, d) ∷ (q, c) ∷ ys)
                ∙ sym (last-append x xs ((q, c) ∷ ys));
            size_length =
                omega
                  (arith, length-append xs ((e, d) ∷ (q, c) ∷ ys), length-append xs ((q, c) ∷ ys));
            distinct = Distinct-join ((x, w) ∷ xs) ((q, c) ∷ ys) dx dy (λ p h. (inner p h).2);
            nodes =
                Segment-join t null ((x, w) ∷ xs) ((q, c) ∷ ys) null
                  (Segment-back s t null ((x, w) ∷ xs) e q px dx
                    (λ p h. let (i, j, k) = inner p h in ((rw i refl, refl), rw j refl))
                    (λ p h m. rw (test_ne p b m) refl) (λ h. rw (test_self b) refl))
                  (Segment-front s t e b ((q, c) ∷ ys) null py dy
                    (λ p h.
                      let i = out_ne e p ((q, c) ∷ ys) o h in
                      let j = out_ne b p ((q, c) ∷ ys) (inner b b_has).2 h in
                      ((rw i refl, refl), rw j refl))
                    (λ p h m. rw (test_ne p q m) refl) (rw (test_self q) refl));
          },
          λ p. refl,
          refl,
          refl,
        ),
      )

pub remove-Shrunk :
    {s : Store} (xs : Cells) (e : Ptr) (d : CallbackItem) (ys : Cells)
    → IsCallbackList s (xs ++ (e, d) ∷ ys)
    → Removed s e d (xs ++ ys)
remove-Shrunk {s} [] e d [] l = remove-only s e d l
remove-Shrunk {s} [] e d ((q, c) ∷ ys) l = remove-head s e d q c ys l
remove-Shrunk {s} ((x, w) ∷ xs) e d [] l = rw (append-nil xs) (remove-tail s x w xs e d l)
remove-Shrunk {s} ((x, w) ∷ xs) e d ((q, c) ∷ ys) l = remove-inner s x w xs e d q c ys l
