-- ===== src/CallbackList/Insert.antt =====
-- A new node in the list of src/callbacklist.c: what insert_next_CallbackDList and
-- insert_prev_CallbackDList share.
use ebotula.Prelude.{◌+◌, ◌≡◌, ◌≢◌, true, false, ◌∷◌, ◌++◌, ◌==◌, arith, Bool-cases, inl, inr}
use ebotula.Bot.{CallbackItem}
use ebotula.Queue.Memory.{Ptr, null, update}
use ebotula.CallbackList.Memory.{Store}
use ebotula.CallbackList.Segment.{
  Cells, has, Distinct, last_of, Segment, IsCallbackList, has-append, Segment-split, Distinct-split,
  Distinct-join, not-has-dead,
}

-- the store behind a node `n` with the item `v` that is linked between `a` and `z`
abbrev pub linked : Store → Ptr → CallbackItem → (Ptr → Ptr) → (Ptr → Ptr) → Ptr → Ptr → Store
linked s n v prevs nexts first last = record s {
  alive = update s.alive n true;
  item = update s.item n v;
  prev = prevs;
  next = nexts;
  head = first;
  tail = last;
  size = s.size + 1;
}

module _ (s : Store) (xs : Cells) (e : Ptr) (d : CallbackItem) (ys : Cells)
    (l : IsCallbackList s (xs ++ (e, d) ∷ ys)) (n : Ptr) (v : CallbackItem) (ne : n ≢ null)
    (dead : s.alive n ≡ false) where
  pub parts : Segment s null xs e × Segment s (last_of null xs) ((e, d) ∷ ys) null
  parts = Segment-split s null xs ((e, d) ∷ ys) null l.nodes

  pub fresh : (has n xs ≡ false) × ((n == e) ≡ false) × (has n ys ≡ false)
  fresh =
      let o = not-has-dead s null (xs ++ (e, d) ∷ ys) null n l.nodes dead in
      let f = has-append n xs ((e, d) ∷ ys) in (ground arith, ground arith, ground arith)

  pub apart :
      Distinct xs
      × (has e ys ≡ false)
      × Distinct ys
      × ((p : Ptr) → has p xs ≡ true → ((p == e) ≡ false) × ((p == n) ≡ false) × (has p ys ≡ false))
  apart =
      let (dx, (o, dy), f) = Distinct-split xs ((e, d) ∷ ys) l.distinct in
      let out = fresh.0 in
      (dx, o, dy, λ p h. (ground (arith, f p h), n_out p h out, ground (arith, f p h)))
    where
      n_out : (p : Ptr) → has p xs ≡ true → has n xs ≡ false → (p == n) ≡ false
      n_out p h o = let f : p ≢ n = λ e. cc in ground arith

  pub Distinct-behind : Distinct (xs ++ (e, d) ∷ (n, v) ∷ ys)
  Distinct-behind =
      let (dx, o, dy, f) = apart in
      let (nx, ne, ny) = fresh in
      Distinct-join xs ((e, d) ∷ (n, v) ∷ ys) dx (ground arith, (ny, dy))
        (λ p h. let (a, b, c) = f p h in ground arith)

  pub Distinct-before : Distinct (xs ++ (n, v) ∷ (e, d) ∷ ys)
  Distinct-before =
      let (dx, o, dy, f) = apart in
      let (nx, ne, ny) = fresh in
      Distinct-join xs ((n, v) ∷ (e, d) ∷ ys) dx (ground arith, (o, dy))
        (λ p h. let (a, b, c) = f p h in ground arith)

-- The list is well formed with the cells `cs`, and nothing but the node `n` is new in it.
abbrev pub Grown : Store → Ptr → Cells → Store → Type 0
Grown s n cs t =
    IsCallbackList t cs
    × ((p : Ptr) → t.alive p ≡ update s.alive n true p)
    × (t.has_destroy ≡ s.has_destroy)
    × (t.destroyed ≡ s.destroyed)

module _ (s : Store) (e : Ptr) (d : CallbackItem) (ys : Cells) (n : Ptr) (v : CallbackItem)
    (ne : n ≢ null) (dead : s.alive n ≡ false) where
  -- what is not the new node or the one behind it
  pub others :
      (xs : Cells) (l : IsCallbackList s (xs ++ (e, d) ∷ ys)) (p : Ptr)
      → has p ys ≡ true
      → ((p == e) ≡ false) × ((p == n) ≡ false) × (has p xs ≡ false)
  others xs l p h =
      let (dx, o, dy, f) = apart s xs e d ys l n v ne dead in
      let (nx, ne', ny) = fresh s xs e d ys l n v ne dead in
      let x : p ≢ e = λ i. cc in
      let y : p ≢ n = λ i. cc in
      (
        ground arith,
        ground arith,
        elim (Bool-cases (has p xs)) [ inl i ↦ let (_, _, k) = f p i in absurd cc | inr i ↦ i ],
      )
