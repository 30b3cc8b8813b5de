-- ===== src/CallbackList/Behind.antt =====
-- insert_next_CallbackDList of src/callbacklist.c: what it leaves in memory.
use ebotula.Prelude.{
  ◌≡◌, ◌≢◌, refl, sym, ◌∙◌, true, false, [], ◌∷◌, ◌++◌, ◌==◌, arith, length-append,
}
use ebotula.CString.Outcome.{done}
use ebotula.Bot.{CallbackItem}
use ebotula.Queue.Memory.{Ptr, null, update}
use ebotula.CallbackList.Memory.{Store}
use ebotula.CallbackList.Segment.{
  Cells, has, IsCallbackList, first-append, last-append, Segment-join, Segment-frame, Segment-front,
  size-cells,
}
use ebotula.CallbackList.{insert_next_callback_dlist}
use ebotula.CallbackList.Insert.{linked, Grown, parts, fresh, apart, Distinct-behind}

-- the new node between `e` and `z`, in both orders, behind the writes of the code
abbrev pub behind_tail : Store → Ptr → Ptr → CallbackItem → Store
behind_tail s e n v =
    linked s n v (update (update s.prev n null) n e)
      (update (update (update s.next n null) n null) e n) s.head n

abbrev pub behind_inner : Store → Ptr → Ptr → Ptr → CallbackItem → Store
behind_inner s e q n v =
    linked s n v (update (update (update s.prev n null) n e) q n)
      (update (update (update s.next n null) n q) e n) s.head s.tail

module _ (s : Store) (xs : Cells) (e : Ptr) (d : CallbackItem) (n : Ptr) (v : CallbackItem)
    (ne : n ≢ null) (dead : s.alive n ≡ false) where
  pub behind_tail-Grown :
      IsCallbackList s (xs ++ (e, d) ∷ [])
      → Grown s n (xs ++ (e, d) ∷ (n, v) ∷ []) (behind_tail s e n v)
  behind_tail-Grown l =
      let (px, (ae, en, ie, be, fe, _)) = parts s xs e d [] l n v ne dead in
      let (dx, o, dy, f) = apart s xs e d [] l n v ne dead in
      let (nx, ne', ny) = fresh s xs e d [] l n v ne dead in
      (
        record {
          head_first =
              l.head_first
              ∙ first-append xs ((e, d) ∷ []) null
              ∙ sym (first-append xs ((e, d) ∷ (n, v) ∷ []) null);
          tail_last = sym (last-append null xs ((e, d) ∷ (n, v) ∷ []));
          size_length =
              let z = l.size_length in
              omega
                (arith, length-append xs ((e, d) ∷ []), length-append xs ((e, d) ∷ (n, v) ∷ []));
          distinct = Distinct-behind s xs e d [] l n v ne dead;
          nodes =
              Segment-join (behind_tail s e n v) null xs ((e, d) ∷ (n, v) ∷ []) null
                (Segment-frame s (behind_tail s e n v) null xs e px (λ p h.
                  let (a, b, c) = f p h in
                  ((ground arith, ground arith), ground arith, ground arith)))
                (
                  ground arith,
                  en,
                  ground arith,
                  ground arith,
                  ground arith,
                  (ground arith, ne, ground arith, ground arith, ground arith, tt),
                );
        },
        λ p. refl,
        refl,
        refl,
      )

  pub insert_next-tail :
      IsCallbackList s (xs ++ (e, d) ∷ [])
      → insert_next_callback_dlist n e v s ≡ done (true, behind_tail s e n v)
  unfolding insert_next_callback_dlist
  insert_next-tail l =
      let (px, (ae, en, ie, be, fe, _)) = parts s xs e d [] l n v ne dead in
      let (nx, ne', ny) = fresh s xs e d [] l n v ne dead in
      let e_ok : (e == null) ≡ false = ground arith in
      let n_ok : (n == null) ≡ false = ground arith in
      let e_n : (e == n) ≡ false = ground arith in
      let self : (n == n) ≡ true = ground arith in
      let some_left = size-cells s xs e d [] l in
      rw (e_ok, n_ok, some_left, e_n, ae, fe, self) (rw (self, e_n, ae) refl)

module _ (s : Store) (xs : Cells) (e : Ptr) (d : CallbackItem) (q : Ptr) (c : CallbackItem)
    (ys : Cells) (n : Ptr) (v : CallbackItem) (ne : n ≢ null) (dead : s.alive n ≡ false) where
  pub behind_inner-Grown :
      IsCallbackList s (xs ++ (e, d) ∷ (q, c) ∷ ys)
      → Grown s n (xs ++ (e, d) ∷ (n, v) ∷ (q, c) ∷ ys) (behind_inner s e q n v)
  behind_inner-Grown l =
      let (px, (ae, en, ie, be, fe, py)) = parts s xs e d ((q, c) ∷ ys) l n v ne dead in
      let (dx, o, dy, f) = apart s xs e d ((q, c) ∷ ys) l n v ne dead in
      let (nx, ne', ny) = fresh s xs e d ((q, c) ∷ ys) l n v ne dead in
      (
        record {
          head_first =
              l.head_first
              ∙ first-append xs ((e, d) ∷ (q, c) ∷ ys) null
              ∙ sym (first-append xs ((e, d) ∷ (n, v) ∷ (q, c) ∷ ys) null);
          tail_last =
              l.tail_last
              ∙ last-append null xs ((e, d) ∷ (q, c) ∷ ys)
              ∙ sym (last-append null xs ((e, d) ∷ (n, v) ∷ (q, c) ∷ ys));
          size_length =
              let z = l.size_length in
              omega (
                arith,
                length-append xs ((e, d) ∷ (q, c) ∷ ys),
                length-append xs ((e, d) ∷ (n, v) ∷ (q, c) ∷ ys),
              );
          distinct = Distinct-behind s xs e d ((q, c) ∷ ys) l n v ne dead;
          nodes =
              Segment-join (behind_inner s e q n v) null xs ((e, d) ∷ (n, v) ∷ (q, c) ∷ ys) null
                (Segment-frame s (behind_inner s e q n v) null xs e px (λ p h.
                  let (x, y, z) = f p h in
                  ((ground arith, ground arith), ground arith, ground arith)))
                (
                  ground arith,
                  en,
                  ground arith,
                  ground arith,
                  ground arith,
                  (
                    ground arith,
                    ne,
                    ground arith,
                    ground arith,
                    ground arith,
                    Segment-front s (behind_inner s e q n v) e n ((q, c) ∷ ys) null py dy
                        (λ p h.
                          let (x, y) = old p h o ny in ((ground arith, ground arith), ground arith))
                        (λ p h m. let (x, y) = old p h o ny in ground arith) (ground arith),
                  ),
                );
        },
        λ p. refl,
        refl,
        refl,
      )
    where
      old :
          (p : Ptr)
          → has p ((q, c) ∷ ys) ≡ true
          → has e ((q, c) ∷ ys) ≡ false
          → has n ((q, c) ∷ ys) ≡ false
          → ((p == e) ≡ false) × ((p == n) ≡ false)
      old p h o r =
          let x : p ≢ e = λ i. cc in let y : p ≢ n = λ i. cc in (ground arith, ground arith)

  pub insert_next-inner :
      IsCallbackList s (xs ++ (e, d) ∷ (q, c) ∷ ys)
      → insert_next_callback_dlist n e v s ≡ done (true, behind_inner s e q n v)
  unfolding insert_next_callback_dlist
  insert_next-inner l =
      let (px, (ae, en, ie, be, fe, py)) = parts s xs e d ((q, c) ∷ ys) l n v ne dead in
      let (nx, ne', ny) = fresh s xs e d ((q, c) ∷ ys) l n v ne dead in
      let e_ok : (e == null) ≡ false = ground arith in
      let n_ok : (n == null) ≡ false = ground arith in
      let q_ok : (q == null) ≡ false = let m = py.1 in ground arith in
      let e_n : (e == n) ≡ false = ground arith in
      let q_n : (q == n) ≡ false = ground arith in
      let self : (n == n) ≡ true = ground arith in
      let some_left = size-cells s xs e d ((q, c) ∷ ys) l in
      rw (e_ok, n_ok, some_left, e_n, ae, fe, self) (rw (self, q_ok, q_n, py.0, e_n, ae) refl)
