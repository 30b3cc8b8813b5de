-- ===== src/CallbackList/Segment.antt =====
-- What a well-formed callback list is in memory, and how a stretch of it survives changes.
use ebotula.Prelude.{
  ◌≡◌, ◌≢◌, refl, ap, ◌∙◌, Bool, true, false, ◌||◌, List, [], ◌∷◌, ◌++◌, ◌==◌, arith, length,
  Bool-cases, inl, inr, length-append,
}
use ebotula.Bot.{CallbackItem}
use ebotula.Queue.Memory.{Ptr, null}
use ebotula.CallbackList.Memory.{Store}

-- the nodes with their items, from the head to the tail
abbrev pub Cells : Type 0
Cells = List (Ptr × CallbackItem)

abbrev pub has : Ptr → Cells → Bool
has a [] = false
has a ((p, _) ∷ cs) = a == p || has a cs

abbrev pub Distinct : Cells → Type 0
Distinct [] = Unit
Distinct ((p, _) ∷ cs) = (has p cs ≡ false) × Distinct cs

-- the first node, or what stands behind an empty stretch
abbrev pub first_of : Cells → Ptr → Ptr
first_of [] z = z
first_of ((p, _) ∷ cs) z = p

-- the last node, or what stands in front of an empty stretch
abbrev pub last_of : Ptr → Cells → Ptr
last_of a [] = a
last_of a ((p, _) ∷ cs) = last_of p cs

-- allocated nodes with their items, linked both ways, behind `a` and in front of `z`
abbrev pub Segment : Store → Ptr → Cells → Ptr → Type 0
Segment s a [] z = Unit
Segment s a ((p, d) ∷ cs) z =
    (s.alive p ≡ true)
    × (p ≢ null)
    × (s.item p ≡ d)
    × (s.prev p ≡ a)
    × (s.next p ≡ first_of cs z)
    × Segment s p cs z

pub record IsCallbackList (s : Store) (cs : Cells) : Type 0 where
  pub head_first : s.head ≡ first_of cs null
  pub tail_last : s.tail ≡ last_of null cs
  pub size_length : s.size ≡ length cs
  pub distinct : Distinct cs
  pub nodes : Segment s null cs null

pub test_ne : (a b : Ptr) → a ≢ b → (a == b) ≡ false
test_ne a b ne = ground arith

pub test_self : (a : Ptr) → (a == a) ≡ true
test_self a = ground arith

pub test_sym : (a b : Ptr) → (a == b) ≡ false → (b == a) ≡ false
test_sym a b h = ground arith

pub has-append : (a : Ptr) (xs ys : Cells) → has a (xs ++ ys) ≡ (has a xs || has a ys)
has-append a [] ys = refl
has-append a (x ∷ xs) ys = ground (arith, has-append a xs ys)

pub first-append : (xs ys : Cells) (z : Ptr) → first_of (xs ++ ys) z ≡ first_of xs (first_of ys z)
first-append [] ys z = refl
first-append (x ∷ xs) ys z = refl

pub last-append : (a : Ptr) (xs ys : Cells) → last_of a (xs ++ ys) ≡ last_of (last_of a xs) ys
last-append a [] ys = refl
last-append a ((p, d) ∷ xs) ys = last-append p xs ys

pub Segment-split :
    (s : Store) (a : Ptr) (xs ys : Cells) (z : Ptr)
    → Segment s a (xs ++ ys) z
    → Segment s a xs (first_of ys z) × Segment s (last_of a xs) ys z
Segment-split s a [] ys z g = (tt, g)
Segment-split s a ((p, d) ∷ xs) ys z (e, n, i, b, f, g) =
    let (l, r) = Segment-split s p xs ys z g in ((e, n, i, b, f ∙ first-append xs ys z, l), r)

pub Segment-join :
    (s : Store) (a : Ptr) (xs ys : Cells) (z : Ptr)
    → Segment s a xs (first_of ys z)
    → Segment s (last_of a xs) ys z
    → Segment s a (xs ++ ys) z
Segment-join s a [] ys z l r = r
Segment-join s a ((p, d) ∷ xs) ys z (e, n, i, b, f, l) r =
    (e, n, i, b, rw (first-append xs ys z) f, Segment-join s p xs ys z l r)

-- two stores agree on a node but for its links
abbrev pub SameNode : Store → Store → Ptr → Type 0
SameNode s t p = (t.alive p ≡ s.alive p) × (t.item p ≡ s.item p)

abbrev pub SameLinks : Store → Store → Ptr → Type 0
SameLinks s t p = SameNode s t p × (t.prev p ≡ s.prev p) × (t.next p ≡ s.next p)

pub Segment-frame :
    (s t : Store) (a : Ptr) (cs : Cells) (z : Ptr)
    → Segment s a cs z
    → ((p : Ptr) → has p cs ≡ true → SameLinks s t p)
    → Segment t a cs z
Segment-frame s t a [] z g same = tt
Segment-frame s t a ((p, d) ∷ cs) z (e, n, i, b, f, g) same =
    let ((sa, si), sp, sn) = same p (ground arith) in
    (sa ∙ e, n, si ∙ i, sp ∙ b, sn ∙ f, Segment-frame s t p cs z g (λ q o. same q (ground arith)))

-- a stretch whose first node gets another node in front of it
pub Segment-front :
    (s t : Store) (a a' : Ptr) (cs : Cells) (z : Ptr)
    → Segment s a cs z
    → Distinct cs
    → ((p : Ptr) → has p cs ≡ true → SameNode s t p × (t.next p ≡ s.next p))
    → ((p : Ptr) → has p cs ≡ true → p ≢ first_of cs z → t.prev p ≡ s.prev p)
    → t.prev (first_of cs z) ≡ a'
    → Segment t a' cs z
Segment-front s t a a' [] z g ds same prevs e = tt
Segment-front s t a a' ((p, d) ∷ cs) z (l, n, i, b, f, g) (o, ds) same prevs e =
    let ((sa, si), sn) = same p (ground arith) in
    (
      sa ∙ l,
      n,
      si ∙ i,
      e,
      sn ∙ f,
      Segment-frame s t p cs z g (λ q h.
          let ((ta, ti), tn) = same q (ground arith) in
          ((ta, ti), prevs q (ground arith) (λ e. ne_of_has q h e), tn)),
    )
  where
    ne_of_has : (q : Ptr) → has q cs ≡ true → q ≡ p → ⊥
    ne_of_has q h e = cc

-- a stretch whose last node gets another node behind it
pub Segment-back :
    (s t : Store) (a : Ptr) (cs : Cells) (z z' : Ptr)
    → Segment s a cs z
    → Distinct cs
    → ((p : Ptr) → has p cs ≡ true → SameNode s t p × (t.prev p ≡ s.prev p))
    → ((p : Ptr) → has p cs ≡ true → p ≢ last_of a cs → t.next p ≡ s.next p)
    → (has (last_of a cs) cs ≡ true → t.next (last_of a cs) ≡ z')
    → Segment t a cs z'
Segment-back s t a [] z z' g ds same nexts e = tt
Segment-back s t a ((p, d) ∷ []) z z' (l, n, i, b, f, g) ds same nexts e =
    let ((sa, si), sp) = same p (ground arith) in (sa ∙ l, n, si ∙ i, sp ∙ b, e (ground arith), tt)
Segment-back s t a ((p, d) ∷ (q, c) ∷ cs) z z' (l, n, i, b, f, g) (o, ds) same nexts e =
    let ((sa, si), sp) = same p (ground arith) in
    (
      sa ∙ l,
      n,
      si ∙ i,
      sp ∙ b,
      nexts p (ground arith) (ne_last q c cs o) ∙ f,
      Segment-back s t p ((q, c) ∷ cs) z z' g ds (λ r h. same r (ground arith))
          (λ r h ne. nexts r (ground arith) ne) (λ h. e (ground arith)),
    )
  where
    ne_last :
        (q : Ptr) (c : CallbackItem) (cs : Cells) → has p ((q, c) ∷ cs) ≡ false → p ≢ last_of q cs
    ne_last q c [] o = ground arith
    ne_last q c ((r, x) ∷ cs) o = ne_last r x cs (ground arith)

pub Distinct-split :
    (xs ys : Cells)
    → Distinct (xs ++ ys)
    → Distinct xs × Distinct ys × ((p : Ptr) → has p xs ≡ true → has p ys ≡ false)
Distinct-split [] ys ds = (tt, ds, λ p h. ground arith)
Distinct-split ((q, c) ∷ xs) ys (o, ds) =
    let (l, r, apart) = Distinct-split xs ys ds in
    ((ground (arith, has-append q xs ys), l), r, λ p h. ground (arith, has-append q xs ys, apart p))

pub Distinct-join :
    (xs ys : Cells)
    → Distinct xs
    → Distinct ys
    → ((p : Ptr) → has p xs ≡ true → has p ys ≡ false)
    → Distinct (xs ++ ys)
Distinct-join [] ys l r apart = r
Distinct-join ((q, c) ∷ xs) ys (o, l) r apart = (
  ground (arith, has-append q xs ys, apart q),
  Distinct-join xs ys l r (λ p h. apart p (ground arith)),
)

pub not-has-dead :
    (s : Store) (a : Ptr) (cs : Cells) (z p : Ptr)
    → Segment s a cs z
    → s.alive p ≡ false
    → has p cs ≡ false
not-has-dead s a [] z p g dead = refl
not-has-dead s a ((q, d) ∷ cs) z p (l, _, _, _, _, g) dead =
    ground (arith, not-has-dead s q cs z p g dead)

pub alive-has :
    (s : Store) (a : Ptr) (cs : Cells) (z p : Ptr)
    → Segment s a cs z
    → has p cs ≡ true
    → (s.alive p ≡ true) × (p ≢ null)
alive-has s a [] z p g h = absurd cc
alive-has s a ((q, d) ∷ cs) z p (l, n, _, _, _, g) h = elim (Bool-cases (p == q)) [
  | inl e ↦ (ground arith, ground arith)
  | inr e ↦ alive-has s q cs z p g (ground arith)
]

has-last : (p : Ptr) (d : CallbackItem) (cs : Cells) → has (last_of p cs) ((p, d) ∷ cs) ≡ true
has-last p d [] = ground arith
has-last p d ((q, c) ∷ cs) = ground (arith, has-last q c cs)

-- the last node of a stretch with nodes
pub last_of-has :
    (p : Ptr) (d : CallbackItem) (cs : Cells) (a : Ptr)
    → has (last_of a ((p, d) ∷ cs)) ((p, d) ∷ cs) ≡ true
last_of-has p d cs a = has-last p d cs

pub size-cells :
    (s : Store) (xs : Cells) (e : Ptr) (d : CallbackItem) (ys : Cells)
    → IsCallbackList s (xs ++ (e, d) ∷ ys)
    → (s.size == 0) ≡ false
size-cells s xs e d ys l = let n = l.size_length in ground (arith, length-append xs ((e, d) ∷ ys))

-- a list with a node has a last one
pub unsnoc :
    (c : Ptr × CallbackItem) (cs : Cells)
    → (xs : Cells) × (p : Ptr) × (d : CallbackItem) × (c ∷ cs ≡ xs ++ (p, d) ∷ [])
unsnoc (p, d) [] = ([], p, d, refl)
unsnoc (p, d) (c ∷ cs) =
    let (xs, q, e, h) = unsnoc c cs in ((p, d) ∷ xs, q, e, ap (λ ys. (p, d) ∷ ys) h)
