-- ===== src/Queue/Links.antt =====
-- Rings survive changes elsewhere, and take a node at their end.
use ebotula.Prelude.{◌≡◌, ◌≢◌, refl, ◌∙◌, true, false, List, [], ◌∷◌, ◌++◌, arith}
use ebotula.Queue.Memory.{Ptr, QueueData, Heap}
use ebotula.Queue.Ring.{has, Distinct, Links, Nodes}

abbrev pub last_of : Ptr → List Ptr → Ptr
last_of a [] = a
last_of a (b ∷ bs) = last_of b bs

pub next-last :
    (h : Heap) (a : Ptr) (ps : List Ptr) (z : Ptr) → Links h a ps z → h.next z ≡ last_of a ps
next-last h a [] z l = l.1
next-last h a (b ∷ bs) z l = next-last h b bs z l.2

pub has-last : (a : Ptr) (b : Ptr) (bs : List Ptr) → has a (b ∷ bs) ≡ false → a ≢ last_of b bs
has-last a b [] o = ground arith
has-last a b (c ∷ bs) o = has-last a c bs (ground arith)

pub alive-last :
    (h : Heap) (b : Ptr) (bs : List Ptr) (ds : List QueueData)
    → Nodes h (b ∷ bs) ds
    → h.alive (last_of b bs) ≡ true
alive-last h b [] [] n = absurd n
alive-last h b (c ∷ bs) [] n = absurd n
alive-last h b [] (d ∷ ds) n = n.0
alive-last h b (c ∷ bs) (d ∷ ds) n = alive-last h c bs ds n.2

-- dead nodes are not in the queue
pub not_has-dead :
    (h : Heap) (p : Ptr) (ps : List Ptr) (ds : List QueueData)
    → Nodes h ps ds
    → h.alive p ≡ false
    → has p ps ≡ false
not_has-dead h p [] ds n e = refl
not_has-dead h p (q ∷ ps) [] n e = absurd n
not_has-dead h p (q ∷ ps) (d ∷ ds) n e = ground (arith, not_has-dead h p ps ds n.2 e)

-- nodes keep their items when neither these nor the allocation change
pub Nodes-frame :
    (h g : Heap) (ps : List Ptr) (ds : List QueueData)
    → Nodes h ps ds
    → ((p : Ptr) → has p ps ≡ true → (g.alive p ≡ h.alive p) × (g.item p ≡ h.item p))
    → Nodes g ps ds
Nodes-frame h g [] [] n same = tt
Nodes-frame h g [] (d ∷ ds) n same = absurd n
Nodes-frame h g (p ∷ ps) [] n same = absurd n
Nodes-frame h g (p ∷ ps) (d ∷ ds) (a, i, n) same =
    let (sa, si) = same p (ground arith) in
    (sa ∙ a, si ∙ i, Nodes-frame h g ps ds n (λ q o. same q (ground arith)))

pub Nodes-snoc :
    (h : Heap) (ps : List Ptr) (ds : List QueueData) (p : Ptr) (d : QueueData)
    → Nodes h ps ds
    → h.alive p ≡ true
    → h.item p ≡ d
    → Nodes h (ps ++ p ∷ []) (ds ++ d ∷ [])
Nodes-snoc h [] [] p d n a i = (a, i, tt)
Nodes-snoc h [] (e ∷ ds) p d n a i = absurd n
Nodes-snoc h (q ∷ ps) [] p d n a i = absurd n
Nodes-snoc h (q ∷ ps) (e ∷ ds) p d (a', i', n) a i = (a', i', Nodes-snoc h ps ds p d n a i)

pub has-snoc :
    (a : Ptr) (ps : List Ptr) (p : Ptr) → has a ps ≡ false → a ≢ p → has a (ps ++ p ∷ []) ≡ false
has-snoc a [] p h n = ground arith
has-snoc a (q ∷ ps) p h n = ground (arith, has-snoc a ps p)

pub Distinct-snoc :
    (ps : List Ptr) (p : Ptr) → Distinct ps → has p ps ≡ false → Distinct (ps ++ p ∷ [])
Distinct-snoc [] p d o = (refl, tt)
Distinct-snoc (q ∷ ps) p (o', d) o =
    (has-snoc q ps p o' (ground arith), Distinct-snoc ps p d (ground arith))

-- the pointers of a stretch are untouched
pub Links-frame :
    (h g : Heap) (a : Ptr) (ps : List Ptr) (z : Ptr)
    → Links h a ps z
    → ((p : Ptr) → has p (a ∷ ps) ≡ true → g.prev p ≡ h.prev p)
    → ((p : Ptr) → has p (z ∷ ps) ≡ true → g.next p ≡ h.next p)
    → Links g a ps z
Links-frame h g a [] z (x, y) sp sn = (sp a (ground arith) ∙ x, sn z (ground arith) ∙ y)
Links-frame h g a (b ∷ bs) z (x, y, l) sp sn = (
  sp a (ground arith) ∙ x,
  sn b (ground arith) ∙ y,
  Links-frame h g b bs z l (λ p o. sp p (ground arith)) (λ p o. sn p (ground arith)),
)

-- A new node `n` between the last node and the end `z`.
pub Links-snoc :
    (h g : Heap) (a : Ptr) (ps : List Ptr) (z n : Ptr)
    → Links h a ps z
    → Distinct (a ∷ ps)
    → has z ps ≡ false
    → g.prev (last_of a ps) ≡ n
    → g.prev n ≡ z
    → g.next n ≡ last_of a ps
    → g.next z ≡ n
    → ((p : Ptr) → has p (a ∷ ps) ≡ true → p ≢ last_of a ps → g.prev p ≡ h.prev p)
    → ((p : Ptr) → has p ps ≡ true → g.next p ≡ h.next p)
    → Links g a (ps ++ n ∷ []) z
Links-snoc h g a [] z n l d o pl pn nn nz sp sn = (pl, nn, (pn, nz))
Links-snoc h g a (b ∷ bs) z n (x, y, l) (da, d) o pl pn nn nz sp sn = (
  sp a (ground arith) (has-last a b bs da) ∙ x,
  sn b (ground arith) ∙ y,
  Links-snoc h g b bs z n l d (ground arith) pl pn nn nz (λ p i ne. sp p (ground arith) ne)
      (λ p i. sn p (ground arith)),
)
