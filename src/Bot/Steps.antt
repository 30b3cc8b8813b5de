-- ===== src/Bot/Steps.antt =====
-- A step that changes a state or leaves its memory: the form in which handlers are written.
use ebotula.CString.Outcome.{Outcome, done, fault}

abbrev pub Done : Type 0
Done = Unit {0}

abbrev pub Act : Type 0 → Type 0 → Type 0
Act State Answer = State → Outcome (Answer × State)

module _ {State : Type 0} where
  abbrev pub pure : {Answer : Type 0} → Answer → Act State Answer
  pure answer s = done (answer, s)

  -- code that leaves its memory
  abbrev pub failed : {Answer : Type 0} → Act State Answer
  failed s = fault

  -- a result that may be a fault, without a change of the state
  abbrev pub lift : {Answer : Type 0} → Outcome Answer → Act State Answer
  lift (done answer) s = done (answer, s)
  lift fault s = fault

  abbrev pub go_on : {A B : Type 0} → (A → Act State B) → Outcome (A × State) → Outcome (B × State)
  go_on rest fault = fault
  go_on rest (done (answer, s)) = rest answer s

  infixl 5 ◌>>=◌ ◌>>◌
  abbrev pub ◌>>=◌ : {A B : Type 0} → Act State A → (A → Act State B) → Act State B
  act >>= rest = λ s. go_on rest (act s)

  abbrev pub ◌>>◌ : {A B : Type 0} → Act State A → Act State B → Act State B
  act >> other = act >>= (λ _. other)
