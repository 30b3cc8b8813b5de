-- ===== src/Bot/Runs.antt =====
-- What it means that a step of the bot ends, and the steps that only speak.
use ebotula.Prelude.{
  ◌≡◌, refl, ap, ◌∙◌, true, List, [], ◌∷◌, Option, some, concat, length, total, length-concat, ◌<◌,
  arith,
}
use ebotula.CString.{Bytes}
use ebotula.CString.Outcome.{Outcome, done, fault}
use ebotula.Irc.{send_msg, answer_buffer_size}
use ebotula.Irc.Lines.{
  Call, run_call, message_of, line_of, run_call-message_of, notice_call, privmsg_call,
}
use ebotula.Extract.{AnswerMode, notice_mode, prv_msg_mode}
use ebotula.Database.Backend.{Library}
use ebotula.Queue.Memory.{QueueData}
use ebotula.Bot.Steps.{Act, go_on, ◌>>◌}
use ebotula.Bot.{MsgItem, World, Handler, emit, tell, for_each}

-- the step ends without a fault, and with a result of which `P` holds
abbrev pub Ends :
    {State Answer : Type 0} → Outcome (Answer × State) → (Answer → State → Type 0) → Type 0
Ends fault P = ⊥
Ends (done (answer, s)) P = P answer s

pub go_on-Ends :
    {State A B : Type 0} (P : B → State → Type 0) (rest : A → Act State B) (o : Outcome (A × State))
    → Ends o (λ a s. Ends (rest a s) P)
    → Ends (go_on rest o) P
go_on-Ends P rest fault h = h
go_on-Ends P rest (done (a, s)) h = h

pub Ends-weaken :
    {State A : Type 0} (P Q : A → State → Type 0) (o : Outcome (A × State))
    → Ends o P
    → ((a : A) (s : State) → P a s → Q a s)
    → Ends o Q
Ends-weaken P Q fault h f = h
Ends-weaken P Q (done (a, s)) h f = f a s h

-- the call that sendMsg makes
abbrev pub answer_call : AnswerMode → Option Bytes → Bytes → Call
answer_call notice_mode nick text = notice_call nick (some text)
answer_call prv_msg_mode nick text = privmsg_call nick (some text)

pub send_msg-answer_call :
    (answer_mode : AnswerMode) (nick : Option Bytes) (text : Bytes)
    → length text < answer_buffer_size
    → send_msg true answer_mode nick text ≡ run_call true (answer_call answer_mode nick text)
unfolding send_msg
send_msg-answer_call notice_mode nick text h = ground arith
send_msg-answer_call prv_msg_mode nick text h = ground arith

-- an answer to the caller below 1024 bytes is handed over whole
pub send_msg-sent :
    (item : MsgItem) (text : List Bytes)
    → total text < answer_buffer_size
    → send_msg true item.answer_mode item.calling_nick (concat text)
      ≡ done (line_of (message_of (answer_call item.answer_mode item.calling_nick (concat text))))
send_msg-sent item text h =
    send_msg-answer_call item.answer_mode item.calling_nick (concat text)
      (omega (arith, length-concat text))
    ∙ run_call-message_of (answer_call item.answer_mode item.calling_nick (concat text))

module _ {lib : Library} where
  -- the later state is the earlier one, with other lines sent
  abbrev pub Same : World lib → World lib → Type 0
  Same w v = v ≡ record w { sent = v.sent }

  -- the step ends, whatever the state, and only sends lines
  abbrev pub Speaks : Handler lib → Type 0
  Speaks act = (w : World lib) → Ends (act w) (λ _ v. Same w v)

  Same-trans : (w v u : World lib) → Same w v → Same v u → Same w u
  Same-trans w v u e f = f ∙ ap {A = World lib} (λ x. record x { sent = u.sent }) e

  pub Speaks-then : (first next : Handler lib) → Speaks first → Speaks next → Speaks (first >> next)
  Speaks-then first next hf hn w =
      go_on-Ends (λ _ u. Same w u) (λ _. next) (first w)
        (Ends-weaken (λ _ v. Same w v) (λ _ v. Ends (next v) (λ _ u. Same w u)) (first w) (hf w)
          (λ _ v e.
            Ends-weaken (λ _ u. Same v u) (λ _ u. Same w u) (next v) (hn v)
              (λ _ u f. Same-trans w v u e f)))

  pub Speaks-dbf :
      (act : Handler lib) → Speaks act → (w : World lib) → Ends (act w) (λ _ v. v.dbf ≡ w.dbf)
  Speaks-dbf act h w =
      Ends-weaken (λ _ v. Same w v) (λ _ v. v.dbf ≡ w.dbf) (act w) (h w)
        (λ _ v e. ap {A = World lib} (λ x. x.dbf) e)

  -- every call of a function of irc.c that stays in its buffer
  pub emit-Speaks : (c : Call) → Speaks (emit (run_call true c))
  emit-Speaks c w = rw (run_call-message_of c) refl

  pub tell-Speaks :
      (item : MsgItem) (text : List Bytes)
      → length (concat text) < answer_buffer_size
      → Speaks (tell item text)
  tell-Speaks item text h w =
      rw (send_msg-answer_call item.answer_mode item.calling_nick (concat text) h)
        (emit-Speaks (answer_call item.answer_mode item.calling_nick (concat text)) w)

  pub for_each-Speaks :
      (items : List QueueData) (body : QueueData → Handler lib)
      → ((q : QueueData) → Speaks (body q))
      → Speaks (for_each items body)
  unfolding for_each
  for_each-Speaks [] body h = λ w. refl
  for_each-Speaks (q ∷ rest) body h =
      Speaks-then (body q) (for_each rest body) (h q) (for_each-Speaks rest body h)
