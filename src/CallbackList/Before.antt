-- ===== src/CallbackList/Before.antt =====
-- insert_prev_CallbackDList of src/callbacklist.c: what it leaves in memory.
use ebotula.Prelude.{
  ◌≡◌, ◌≢◌, refl, sym, ◌∙◌, true, false, [], ◌∷◌, ◌++◌, ◌==◌, arith, length-append,
}
use ebotula.CString.Outcome.{done}
use ebotula.Bot.{CallbackItem}
use ebotula.Queue.Memory.{Ptr, null, update}
use ebotula.CallbackList.Memory.{Store}
use ebotula.CallbackList.Segment.{
  Cells, has, last_of, IsCallbackList, last-append, Segment-join, Segment-frame, Segment-back,
  alive-has, last_of-has, size-cells, test_ne, test_self, test_sym,
}
use ebotula.CallbackList.{insert_prev_callback_dlist}
use ebotula.CallbackList.Insert.{linked, Grown, parts, fresh, apart, Distinct-before, others}

-- insert_prev in front of the head
abbrev pub before_head : Store → Ptr → Ptr → CallbackItem → Store
before_head s e n v =
    linked s n v (update (update (update s.prev n null) n null) e n)
      (update (update s.next n null) n e) n s.tail

abbrev pub before_inner : Store → Ptr → Ptr → Ptr → CallbackItem → Store
before_inner s b e n v =
    linked s n v (update (update (update s.prev n null) n b) e n)
      (update (update (update s.next n null) n e) b n) s.head s.tail

module _ (s : Store) (e : Ptr) (d : CallbackItem) (ys : Cells) (n : Ptr) (v : CallbackItem)
    (ne : n ≢ null) (dead : s.alive n ≡ false) where
  pub before_head-Grown :
      IsCallbackList s ((e, d) ∷ ys) → Grown s n ((n, v) ∷ (e, d) ∷ ys) (before_head s e n v)
  before_head-Grown l =
      let (px, (ae, en, ie, be, fe, py)) = parts s [] e d ys l n v ne dead in
      let (nx, ne', ny) = fresh s [] e d ys l n v ne dead in
      let e_n : (e == n) ≡ false = ground arith in
      let sn = test_self n in
      let se = test_self e in
      (
        record {
          head_first = refl;
          tail_last = l.tail_last;
          size_length = let z = l.size_length in omega arith;
          distinct = Distinct-before s [] e d ys l n v ne dead;
          nodes = (
            rw sn refl,
            ne,
            rw sn refl,
            rw (ne', sn) refl,
            rw sn refl,
            (
              rw e_n ae,
              en,
              rw e_n ie,
              rw se refl,
              rw e_n fe,
              Segment-frame s (before_head s e n v) e ys null py (λ p h.
                  let (x, y, z) = others s e d ys n v ne dead [] l p h in
                  ((rw y refl, rw y refl), rw (x, y) refl, rw y refl)),
            ),
          );
        },
        λ p. refl,
        refl,
        refl,
      )

  pub insert_prev-head :
      IsCallbackList s ((e, d) ∷ ys)
      → insert_prev_callback_dlist n e v s ≡ done (true, before_head s e n v)
  unfolding insert_prev_callback_dlist
  insert_prev-head l =
      let (px, (ae, en, ie, be, fe, py)) = parts s [] e d ys l n v ne dead in
      let (nx, ne', ny) = fresh s [] e d ys l n v ne dead in
      let e_ok : (e == null) ≡ false = ground arith in
      let n_ok : (n == null) ≡ false = ground arith in
      let e_n : (e == n) ≡ false = ground arith in
      let self : (n == n) ≡ true = ground arith in
      let some_left = size-cells s [] e d ys l in
      rw (e_ok, n_ok, some_left, self, e_n, ae, be) (rw (self, e_n, ae) refl)

module _ (s : Store) (x : Ptr) (w : CallbackItem) (xs : Cells) (e : Ptr) (d : CallbackItem)
    (ys : Cells) (n : Ptr) (v : CallbackItem) (ne : n ≢ null) (dead : s.alive n ≡ false) where
  pub before_inner-Grown :
      IsCallbackList s (((x, w) ∷ xs) ++ (e, d) ∷ ys)
      → Grown s n (((x, w) ∷ xs) ++ (n, v) ∷ (e, d) ∷ ys) (before_inner s (last_of x xs) e n v)
  before_inner-Grown l =
      let (px, (ae, en, ie, be, fe, py)) = parts s ((x, w) ∷ xs) e d ys l n v ne dead in
      let (dx, o, dy, f) = apart s ((x, w) ∷ xs) e d ys l n v ne dead in
      let (nx, ne', ny) = fresh s ((x, w) ∷ xs) e d ys l n v ne dead in
      let t = before_inner s (last_of x xs) e n v in
      let b = last_of x xs in
      let (be', bn', by) = f b (last_of-has x w xs null) in
      let e_n : (e == n) ≡ false = ground arith in
      let sn = test_self n in
      let se = test_self e in
      let n_b = test_sym b n bn' in
      let e_b = test_sym b e be' in
      (
        record {
          head_first = l.head_first;
          tail_last =
              l.tail_last
              ∙ last-append x xs ((e, d) ∷ ys)
              ∙ sym (last-append x xs ((n, v) ∷ (e, d) ∷ ys));
          size_length =
              let z = l.size_length in
              omega
                (arith, length-append xs ((e, d) ∷ ys), length-append xs ((n, v) ∷ (e, d) ∷ ys));
          distinct = Distinct-before s ((x, w) ∷ xs) e d ys l n v ne dead;
          nodes =
              Segment-join t null ((x, w) ∷ xs) ((n, v) ∷ (e, d) ∷ ys) null
                (Segment-back s t null ((x, w) ∷ xs) e n px dx
                  (λ p h. let (i, j, k) = f p h in ((rw j refl, rw j refl), rw (i, j) refl))
                  (λ p h m. let (i, j, k) = f p h in rw (test_ne p b m, j) refl)
                  (λ h. rw (test_self b) refl))
                (
                  rw sn refl,
                  ne,
                  rw sn refl,
                  rw (ne', sn) refl,
                  rw (n_b, sn) refl,
                  (
                    rw e_n ae,
                    en,
                    rw e_n ie,
                    rw se refl,
                    rw (e_b, e_n) fe,
                    Segment-frame s t e ys null py (λ p h.
                        let (i, j, k) = others s e d ys n v ne dead ((x, w) ∷ xs) l p h in
                        let p_b = test_ne p b (λ m. last_apart p m h by) in
                        ((rw j refl, rw j refl), rw (i, j) refl, rw (p_b, j) refl)),
                  ),
                );
        },
        λ p. refl,
        refl,
        refl,
      )
    where
      last_apart :
          (p : Ptr) → p ≡ last_of x xs → has p ys ≡ true → has (last_of x xs) ys ≡ false → ⊥
      last_apart p m h by = cc

  pub insert_prev-inner :
      IsCallbackList s (((x, w) ∷ xs) ++ (e, d) ∷ ys)
      → insert_prev_callback_dlist n e v s ≡ done (true, before_inner s (last_of x xs) e n v)
  unfolding insert_prev_callback_dlist
  insert_prev-inner l =
      let (px, (ae, en, ie, be, fe, py)) = parts s ((x, w) ∷ xs) e d ys l n v ne dead in
      let (dx, o, dy, f) = apart s ((x, w) ∷ xs) e d ys l n v ne dead in
      let (nx, ne', ny) = fresh s ((x, w) ∷ xs) e d ys l n v ne dead in
      let b = last_of x xs in
      let (be', bn', by) = f b (last_of-has x w xs null) in
      let (ab, bn) = alive-has s null ((x, w) ∷ xs) e b px (last_of-has x w xs null) in
      let e_ok = test_ne e null en in
      let n_ok = test_ne n null ne in
      let b_ok = test_ne b null bn in
      let e_n : (e == n) ≡ false = ground arith in
      let self = test_self n in
      let some_left = size-cells s ((x, w) ∷ xs) e d ys l in
      rw (e_ok, n_ok, some_left, self, e_n, ae, be) (rw (self, b_ok, bn', ab, e_n, ae) refl)
