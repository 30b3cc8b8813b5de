-- ===== src/CallbackList/Search.antt =====
-- searchNicknameFromCallbackDList of src/callbacklist.c: where it looks, and that it ends.
use ebotula.Prelude.{
  ℕ, zero, suc, ◌≤◌, ◌≡◌, ◌≢◌, refl, sym, ◌∙◌, true, not, ◌&&◌, some, [], ◌∷◌, ◌++◌, ◌==◌, arith,
  length, length-append, if◌then◌else◌, Bool-cases, inl, inr,
}
use ebotula.CString.{Bytes}
use ebotula.CString.Outcome.{done}
use ebotula.Bot.{CallbackItem, same_name}
use ebotula.Bot.Steps.{◌>>=◌}
use ebotula.Queue.Memory.{Ptr, null}
use ebotula.CallbackList.Memory.{Store}
use ebotula.CallbackList.Segment.{
  Cells, first_of, last_of, Segment, IsCallbackList, Segment-split, alive-has, last_of-has,
  size-cells, test_ne, first-append, last-append,
}
use ebotula.CallbackList.{walk, final_match, search_nickname_from_callback_dlist}

-- the first node of `cs` for a nick name, or NULL
unfoldable pub first_for : Bytes → Cells → Ptr
first_for nick [] = null
first_for nick ((p, d) ∷ cs) =
    let behind = first_for nick cs in if same_name d.nickname nick then p else behind

abbrev pub reverse_onto : Cells → Cells → Cells
reverse_onto [] acc = acc
reverse_onto (c ∷ cs) acc = reverse_onto cs (c ∷ acc)

-- The nodes that a search from a node looks at, which has `xs` in front of it and `ys` behind it:
-- from the head and from an inner node those behind it, from the tail those in front of it.
abbrev pub looked_at : Cells → Ptr × CallbackItem → Cells → Cells
looked_at [] c ys = c ∷ ys
looked_at (x ∷ xs) c [] = c ∷ reverse_onto (x ∷ xs) []
looked_at (x ∷ xs) c (y ∷ ys) = c ∷ y ∷ ys

-- `step` leads through the nodes to NULL
abbrev Trail : (Store → Ptr → Ptr) → Store → Cells → Type 0
Trail step s [] = Unit
Trail step s ((p, d) ∷ cs) =
    (s.alive p ≡ true)
    × (p ≢ null)
    × (s.item p ≡ d)
    × (step s p ≡ first_of cs null)
    × Trail step s cs

Trail-next : (s : Store) (a : Ptr) (cs : Cells) → Segment s a cs null → Trail (λ s. s.next) s cs
Trail-next s a [] g = tt
Trail-next s a ((p, d) ∷ cs) (e, n, i, b, f, g) = (e, n, i, f, Trail-next s p cs g)

Trail-prev :
    (s : Store) (xs acc : Cells) (z : Ptr)
    → Segment s (first_of acc null) xs z
    → Trail (λ s. s.prev) s acc
    → Trail (λ s. s.prev) s (reverse_onto xs acc)
Trail-prev s [] acc z g t = t
Trail-prev s ((p, d) ∷ xs) acc z (e, n, i, b, f, g) t =
    Trail-prev s xs ((p, d) ∷ acc) z g (e, n, i, b, t)

first-reverse_onto :
    (xs acc : Cells) → first_of (reverse_onto xs acc) null ≡ last_of (first_of acc null) xs
first-reverse_onto [] acc = refl
first-reverse_onto ((p, d) ∷ xs) acc = first-reverse_onto xs ((p, d) ∷ acc)

length-reverse_onto : (xs acc : Cells) → length (reverse_onto xs acc) ≡ length (xs ++ acc)
length-reverse_onto [] acc = refl
length-reverse_onto (x ∷ xs) acc =
    omega
      (arith, length-reverse_onto xs (x ∷ acc), length-append xs (x ∷ acc), length-append xs acc)

module _ (step : Store → Ptr → Ptr) (nick : Bytes) (s : Store) where
  walk-first_for :
      (fuel : ℕ) (p : Ptr) (d : CallbackItem) (cs : Cells)
      → Trail step s ((p, d) ∷ cs)
      → length ((p, d) ∷ cs) ≤ fuel
      → (walk step nick fuel p >>= final_match nick) s
        ≡ done (some (first_for nick ((p, d) ∷ cs)), s)
  unfolding walk first_for
  walk-first_for zero p d cs t h = absurd (omega arith)
  walk-first_for (suc fuel) p d [] (e, n, i, f, t) h =
      elim (Bool-cases (same_name d.nickname nick)) [
        | inl m ↦ rw (e, i, m) (rw (e, i, m) refl)
        | inr m ↦ rw (e, i, m) (rw (e, f) (rw (e, i, m) refl))
      ]
  walk-first_for (suc fuel) p d ((q, c) ∷ cs) (e, n, i, f, t) h =
      elim (Bool-cases (same_name d.nickname nick)) [
        | inl m ↦ rw (e, i, m) (rw (e, i, m) refl)
        | inr m ↦
            rw (e, i, m)
              (rw (e, f) (rw (test_ne q null t.1) (walk-first_for fuel q c cs t (omega arith))))
      ]

first_ne_null :
    (s : Store) (xs : Cells) (e : Ptr) → e ≢ null → Segment s null xs e → first_of xs e ≢ null
first_ne_null s [] e ne g = ne
first_ne_null s ((p, d) ∷ xs) e ne g = g.1

last_ne_null :
    (s : Store) (e : Ptr) (ys : Cells) → e ≢ null → Segment s e ys null → last_of e ys ≢ null
last_ne_null s e [] ne g = ne
last_ne_null s e ((p, d) ∷ ys) ne g =
    (alive-has s e ((p, d) ∷ ys) null (last_of p ys) g (last_of-has p d ys e)).1

-- the checks in front of the loops
search-walk :
    (s : Store) (fuel : ℕ) (nick : Bytes) (xs : Cells) (e : Ptr) (d : CallbackItem) (ys : Cells)
    → IsCallbackList s (xs ++ (e, d) ∷ ys)
    → search_nickname_from_callback_dlist fuel e nick s
      ≡ (walk
              (if not (last_of null xs == null) && first_of ys null == null
                then (λ s. s.prev)
                else (λ s. s.next))
              nick
              fuel
              e
            >>= final_match nick)
          s
unfolding search_nickname_from_callback_dlist
search-walk s fuel nick xs e d ys l =
    let (px, (ae, en, ie, be, fe, py)) = Segment-split s null xs ((e, d) ∷ ys) null l.nodes in
    let head_ok = test_ne (first_of xs e) null (first_ne_null s xs e en px) in
    let tail_ok = test_ne (last_of e ys) null (last_ne_null s e ys en py) in
    let head_first : s.head ≡ first_of xs e = l.head_first ∙ first-append xs ((e, d) ∷ ys) null in
    let tail_last : s.tail ≡ last_of e ys = l.tail_last ∙ last-append null xs ((e, d) ∷ ys) in
    rw (size-cells s xs e d ys l, test_ne e null en, head_first, tail_last, head_ok, tail_ok)
      (rw (ae, be, fe) (rw ae refl))

-- A search from any node of a well-formed callback list ends, with as much fuel as the list has
-- items, and changes nothing. It returns the first node for the nick name among those it looks at,
-- upper and lower case alike, and NULL when there is none: from the head it looks at the whole
-- list, from the tail at the whole list backwards, from any other node at those from there on.
pub search-first_for :
    {s : Store} (fuel : ℕ) (nick : Bytes) (xs : Cells) (e : Ptr) (d : CallbackItem) (ys : Cells)
    → IsCallbackList s (xs ++ (e, d) ∷ ys)
    → length (xs ++ (e, d) ∷ ys) ≤ fuel
    → search_nickname_from_callback_dlist fuel e nick s
      ≡ done (some (first_for nick (looked_at xs (e, d) ys)), s)
search-first_for {s} fuel nick [] e d ys l h =
    search-walk s fuel nick [] e d ys l
    ∙ walk-first_for (λ s. s.next) nick s fuel e d ys (Trail-next s null ((e, d) ∷ ys) l.nodes) h
search-first_for {s} fuel nick ((x, w) ∷ xs) e d [] l h =
    let (px, (ae, en, ie, be, fe, py)) =
      Segment-split s null ((x, w) ∷ xs) ((e, d) ∷ []) null l.nodes in
    let b_ok =
      test_ne (last_of x xs) null
        (alive-has s null ((x, w) ∷ xs) e (last_of x xs) px (last_of-has x w xs null)).1 in
    let back = reverse_onto xs ((x, w) ∷ []) in
    search-walk s fuel nick ((x, w) ∷ xs) e d [] l
    ∙ rw b_ok (
        walk-first_for (λ s. s.prev) nick s fuel e d back
          (
            ae,
            en,
            ie,
            be ∙ sym (first-reverse_onto ((x, w) ∷ xs) []),
            Trail-prev s ((x, w) ∷ xs) [] e px tt,
          )
          (omega (
            arith,
            length-reverse_onto xs ((x, w) ∷ []),
            length-append xs ((x, w) ∷ []),
            length-append xs ((e, d) ∷ []),
            h,
          )))
search-first_for {s} fuel nick ((x, w) ∷ xs) e d ((y, c) ∷ ys) l h =
    let (px, pe) = Segment-split s null ((x, w) ∷ xs) ((e, d) ∷ (y, c) ∷ ys) null l.nodes in
    let b_ok =
      test_ne (last_of x xs) null
        (alive-has s null ((x, w) ∷ xs) e (last_of x xs) px (last_of-has x w xs null)).1 in
    search-walk s fuel nick ((x, w) ∷ xs) e d ((y, c) ∷ ys) l
    ∙ rw (b_ok, test_ne y null pe.5.1)
        (walk-first_for (λ s. s.next) nick s fuel e d ((y, c) ∷ ys)
          (Trail-next s (last_of x xs) ((e, d) ∷ (y, c) ∷ ys) pe)
          (omega (arith, length-append xs ((e, d) ∷ (y, c) ∷ ys), h)))
