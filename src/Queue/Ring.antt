-- ===== src/Queue/Ring.antt =====
-- What a well-formed queue of src/queue.c is in memory.
use ebotula.Prelude.{◌≡◌, ◌≢◌, Bool, true, false, ◌||◌, List, [], ◌∷◌, ◌==◌, length}
use ebotula.Queue.Memory.{Ptr, null, QueueData, Heap}

abbrev pub has : Ptr → List Ptr → Bool
has a [] = false
has a (p ∷ ps) = a == p || has a ps

abbrev pub Distinct : List Ptr → Type 0
Distinct [] = Unit
Distinct (p ∷ ps) = (has p ps ≡ false) × Distinct ps

-- From `a` the `prev` pointers lead through `ps` to `z`, and the `next` pointers back.
abbrev pub Links : Heap → Ptr → List Ptr → Ptr → Type 0
Links h a [] z = (h.prev a ≡ z) × (h.next z ≡ a)
Links h a (b ∷ bs) z = (h.prev a ≡ b) × (h.next b ≡ a) × Links h b bs z

-- allocated nodes that hold the items
abbrev pub Nodes : Heap → List Ptr → List QueueData → Type 0
Nodes h [] [] = Unit
Nodes h (p ∷ ps) (d ∷ ds) = (h.alive p ≡ true) × (h.item p ≡ d) × Nodes h ps ds
Nodes h _ _ = ⊥

-- The sentinel `s` heads a ring of the nodes `ps`, the oldest first, that hold the items `ds`.
pub record IsQueue (h : Heap) (s : Ptr) (ps : List Ptr) (ds : List QueueData) : Type 0 where
  pub ne_null : s ≢ null
  pub alive : h.alive s ≡ true
  pub self : h.sentinel s ≡ s
  pub apart : has s ps ≡ false
  pub distinct : Distinct ps
  pub links : Links h s ps s
  pub nodes : Nodes h ps ds
  pub count : h.count s ≡ length ps
