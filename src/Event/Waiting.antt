-- ===== src/Event/Waiting.antt =====
-- The list of callbacks as a queue for each nick name: src/callbacklist.c as hCallback in
-- src/handles.c uses it.
use ebotula.Prelude.{
  ◌≡◌, refl, ap, inl, inr, true, false, List, [], ◌∷◌, ◌++◌, Option, none, some, if◌then◌else◌,
  Bool-cases,
}
use ebotula.CString.{Bytes}
use ebotula.Bot.{CallbackItem, same_name}
use ebotula.Event.{skip_item, take_callback}

-- the callbacks that wait for a nick name, the oldest first
unfoldable pub waiting : Bytes → List CallbackItem → List CallbackItem
waiting nick [] = []
waiting nick (item ∷ rest) =
    let behind = waiting nick rest in if same_name item.nickname nick then item ∷ behind else behind

-- An item of the nick name that is taken out of the list: none of that nick name is in front of it,
-- and all others stay, in their order.
abbrev pub TakenOut : Bytes → List CallbackItem → CallbackItem → List CallbackItem → Type 0
TakenOut nick items item left =
    (same_name item.nickname nick ≡ true)
    × ((front : List CallbackItem) × (behind : List CallbackItem) × (items ≡ front ++ item ∷ behind)
        × (left ≡ front ++ behind)
        × (waiting nick front ≡ []))

abbrev pub Served : Bytes → List CallbackItem → Option (CallbackItem × List CallbackItem) → Type 0
Served nick items none = waiting nick items ≡ []
Served nick items (some (item, left)) = TakenOut nick items item left

skip_item-Served :
    (nick : Bytes) (item : CallbackItem) (rest : List CallbackItem)
    (found : Option (CallbackItem × List CallbackItem))
    → same_name item.nickname nick ≡ false
    → Served nick rest found
    → Served nick (item ∷ rest) (skip_item item found)
unfolding waiting
skip_item-Served nick item rest none e h = rw e h
skip_item-Served nick item rest (some (other, left)) e (s, (front, behind, a, b, c)) =
    (s, (item ∷ front, behind, ap (λ xs. item ∷ xs) a, ap (λ xs. item ∷ xs) b, rw e c))

-- What hCallback takes off the list of callbacks, upper and lower case alike, is the item that has
-- waited longest for the nick name: no item in front of it is for that nick name. All other items,
-- of this and of other nick names, stay on the list in their order. It takes none only when none
-- waits for the nick name.
pub take_callback-Served :
    (nick : Bytes) (items : List CallbackItem) → Served nick items (take_callback nick items)
unfolding take_callback waiting
take_callback-Served nick [] = refl
take_callback-Served nick (item ∷ rest) = elim (Bool-cases (same_name item.nickname nick)) [
  | inl e ↦ rw e (e, ([], rest, refl, refl, refl))
  | inr e ↦
      rw e (
        skip_item-Served nick item rest (take_callback nick rest) e
          (take_callback-Served nick rest))
]
