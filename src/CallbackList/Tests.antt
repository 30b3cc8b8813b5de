-- ===== src/CallbackList/Tests.antt =====
-- A run of the callback list; and the witnesses of the list's theorems.
use ebotula.Prelude.{
  ◌≡◌, refl, Bool, true, false, Option, some, none, List, [], ◌∷◌, ◌==◌, arith, if◌then◌else◌, ◌||◌,
}
use ebotula.CString.{Bytes, codes}
use ebotula.CString.Outcome.{Outcome, done, fault}
use ebotula.Bot.{CallbackItem, kick_cb}
use ebotula.Bot.Steps.{Act, pure, ◌>>=◌, ◌>>◌}
use ebotula.Queue.Memory.{Ptr, null}
use ebotula.Event.{take_callback}
use ebotula.CallbackList.Memory.{Store, list_field}
use ebotula.CallbackList.Segment.{IsCallbackList}
use ebotula.CallbackList.Remove.{Removed}
use ebotula.CallbackList.Edit.{
  InsertedNext, InsertedPrev, insert-IsCallbackList, remove-IsCallbackList,
}
use ebotula.CallbackList.Search.{first_for, search-first_for}
use ebotula.CallbackList.Pending.{items_of, TakenFrom, take_callback-refines}
use ebotula.CallbackList.Destroy.{Destroyed, destroy_callback_dlist-Destroyed}
use ebotula.CallbackList.{
  init_extended_callback_dlist, insert_next_callback_dlist, insert_prev_callback_dlist,
  remove_callback_dlist, search_nickname_from_callback_dlist, destroy_callback_dlist, destroy_loop,
  walk,
}

abbrev for_nick : Bytes → CallbackItem
for_nick nick = record { nickname = nick; callback_fkt = kick_cb; text = codes "x" }

abbrev blank : Store
blank = record {
  alive = λ _. false;
  item = λ _. for_nick (codes "");
  prev = λ _. null;
  next = λ _. null;
  size = 0;
  head = null;
  tail = null;
  has_destroy = true;
  destroyed = [];
}

abbrev eve : CallbackItem
eve = for_nick (codes "eve")

abbrev bob : CallbackItem
bob = for_nick (codes "bob")

-- the nodes 1 for eve and 2 for bob
abbrev two : Store
two = record blank {
  alive = λ p. p == 1 || p == 2;
  item = λ p. if p == 1 then eve else bob;
  prev = λ p. if p == 2 then 1 else null;
  next = λ p. if p == 1 then 2 else null;
  size = 2;
  head = 1;
  tail = 2;
}

two-IsCallbackList : IsCallbackList two ((1, eve) ∷ (2, bob) ∷ [])
two-IsCallbackList = record {
  head_first = refl;
  tail_last = refl;
  size_length = refl;
  distinct = (refl, (refl, tt));
  nodes = (
    refl,
    λ e. absurd (omega (arith, e)),
    refl,
    refl,
    refl,
    (refl, λ e. absurd (omega (arith, e)), refl, refl, refl, tt),
  );
}

abbrev run_list : Act Store (Bool × Option Ptr × Option CallbackItem × Option CallbackItem × Bool)
run_list = do
  init_extended_callback_dlist true
  _ ← insert_next_callback_dlist 1 null eve
  last ← list_field (λ s. s.tail)
  _ ← insert_next_callback_dlist 2 last bob
  refused ← insert_next_callback_dlist 3 null bob
  _ ← insert_prev_callback_dlist 3 last eve
  found ← search_nickname_from_callback_dlist 3 1 (codes "BOB")
  a ← remove_callback_dlist 3
  b ← remove_callback_dlist 2
  ended ← destroy_callback_dlist 3
  pure (refused, found, a, b, ended)

abbrev answer : {A : Type 0} → Outcome (A × Store) → Option (A × List CallbackItem)
answer fault = none
answer (done (a, s)) = some (a, s.destroyed)

run_list_test : answer (run_list blank) ≡ some ((false, some 2, some eve, some bob, true), eve ∷ [])
unfolding init_extended_callback_dlist insert_next_callback_dlist insert_prev_callback_dlist
    search_nickname_from_callback_dlist walk ebotula.CString.streq ebotula.Utilities.str_to_lower
    remove_callback_dlist destroy_callback_dlist destroy_loop
run_list_test = refl

insert-IsCallbackList_example :
    InsertedNext two 3 1 bob ((1, eve) ∷ (3, bob) ∷ (2, bob) ∷ [])
    × InsertedPrev two 3 1 bob ((3, bob) ∷ (1, eve) ∷ (2, bob) ∷ [])
    × (insert_next_callback_dlist 3 null bob two ≡ done (false, two))
    × (insert_prev_callback_dlist 3 null bob two ≡ done (false, two))
    × (insert_next_callback_dlist null 1 bob two ≡ done (false, two))
    × (insert_prev_callback_dlist null 1 bob two ≡ done (false, two))
insert-IsCallbackList_example =
    insert-IsCallbackList 3 bob [] 1 eve ((2, bob) ∷ []) (λ e. absurd (omega (arith, e))) refl
      two-IsCallbackList

remove-IsCallbackList_example :
    Removed two 2 bob ((1, eve) ∷ []) × (remove_callback_dlist null two ≡ done (none, two))
remove-IsCallbackList_example = remove-IsCallbackList ((1, eve) ∷ []) 2 bob [] two-IsCallbackList

search-first_for_example :
    search_nickname_from_callback_dlist 2 2 (codes "Eve") two
    ≡ done (some (first_for (codes "Eve") ((2, bob) ∷ (1, eve) ∷ [])), two)
search-first_for_example =
    search-first_for 2 (codes "Eve") ((1, eve) ∷ []) 2 bob [] two-IsCallbackList (omega arith)

take_callback-refines_example :
    TakenFrom two 2 (codes "Bob") (take_callback (codes "Bob") (eve ∷ bob ∷ []))
    × InsertedNext two 3 2 eve ((1, eve) ∷ (2, bob) ∷ (3, eve) ∷ [])
    × (items_of ((1, eve) ∷ (2, bob) ∷ (3, eve) ∷ []) ≡ eve ∷ bob ∷ eve ∷ [])
take_callback-refines_example =
    take_callback-refines 2 (codes "Bob") 3 eve ((1, eve) ∷ (2, bob) ∷ []) two-IsCallbackList
      (omega arith) (λ e. absurd (omega (arith, e))) refl

destroy_callback_dlist-Destroyed_example :
    (t : Store) × (destroy_callback_dlist 3 two ≡ done (true, t))
    × Destroyed two ((1, eve) ∷ (2, bob) ∷ []) t
    × IsCallbackList t []
    × (t.has_destroy ≡ false)
destroy_callback_dlist-Destroyed_example =
    destroy_callback_dlist-Destroyed 3 ((1, eve) ∷ (2, bob) ∷ []) two-IsCallbackList (omega arith)
