-- ===== src/Event/Answers.antt =====
-- hCallback and hWhoisFailed of src/handles.c: the answers of the server to a question for a user.
use ebotula.Prelude.{List, [], ◌∷◌, Option, none, some, concat}
use ebotula.CString.{Bytes, codes}
use ebotula.CString.Outcome.{done}
use ebotula.Extract.{get_first_part}
use ebotula.Database.Backend.{Library}
use ebotula.Bot.Steps.{pure, failed, ◌>>◌}
use ebotula.Bot.{MsgItem, Handler, CallbackItem}
use ebotula.Callback.{run_callback}
use ebotula.Event.{skip_part, fourth_on, take_callback}

module _ (lib : Library) where
  abbrev drop_callbacks : List CallbackItem → Handler lib
  drop_callbacks left w = done (tt, record w { callbacks = left })

  -- the search in the list: with items on it strcasecmp reads the nick name, which may be NULL
  abbrev search :
      Option Bytes → (Option (CallbackItem × List CallbackItem) → Handler lib) → Handler lib
  search none body w = elim w.callbacks [ [] ↦ body none w | item ∷ rest ↦ failed w ]
  search (some nick) body w = body (take_callback nick w.callbacks) w

  -- the netmask from the words of the answer; strlen reads each
  abbrev answer_to : Option Bytes → Option Bytes → Option Bytes → CallbackItem → Handler lib
  answer_to (some nick) (some login) (some domain) item =
      run_callback lib item (concat (nick ∷ codes "!" ∷ login ∷ codes "@" ∷ domain ∷ []))
  answer_to (some nick) (some login) none item = failed
  answer_to (some nick) none domain item = failed
  answer_to none login domain item = failed

  unfoldable pub answered :
      Option Bytes
      → Option Bytes
      → Option Bytes
      → Option (CallbackItem × List CallbackItem)
      → Handler lib
  answered nick login domain none = pure tt
  answered nick login domain (some (item, left)) = do
    drop_callbacks left
    answer_to nick login domain item

  unfoldable pub h_callback : MsgItem → Handler lib
  h_callback item =
      let words = fourth_on item.raw_line in
      let behind = skip_part words in
      let last = skip_part behind in
      let nick = (get_first_part words words).0 in
      search nick (answered nick (get_first_part behind behind).0 (get_first_part last none).0)

  abbrev dropped : Option (CallbackItem × List CallbackItem) → Handler lib
  dropped none = pure tt
  dropped (some (item, left)) = drop_callbacks left

  unfoldable pub h_whois_failed : MsgItem → Handler lib
  h_whois_failed item = search (get_first_part (fourth_on item.raw_line) none).0 dropped
