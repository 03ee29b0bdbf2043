-- ===== src/InputController/Queue.antt =====
-- The queue as its two callers see it.
use mathlib.Core.List.{flatten}
use chaos_in_multiplayer.Base.{
  Option, some, none, Option-cases, inl, inr, ◌≡◌, refl, ap, sym, true, false, List, [], ◌∷◌, ◌++◌,
  append_assoc, append-nil, Text, arith, ◌∙◌,
}
use chaos_in_multiplayer.Program.{terminate, ok, fault}
use chaos_in_multiplayer.InputController.{
  InputController, of_schedule, add_input, add_all, arrive, is_empty, input_available, read_input,
  destroy,
}

-- All lines that the caller has not read: the queued ones, then the coming ones, oldest first.
abbrev pub unread : InputController → List Text
unread c = c.input_queue ++ flatten c.arriving

pub add_all_lem :
    (ls : List Text) (c : InputController)
    → add_all ls c ≡ record c { input_queue = c.input_queue ++ ls }
unfolding add_all
add_all_lem [] c = λ i. record c { input_queue = sym (append-nil c.input_queue) i }
add_all_lem (l ∷ ls) c =
    rw (add_all_lem ls) (λ i. record c { input_queue = append_assoc c.input_queue (l ∷ []) ls i })

arrive-unread :
    (s : List (List Text)) (c : InputController) → c.arriving ≡ s → unread (arrive s c) ≡ unread c
unfolding arrive flatten
arrive-unread [] c e = refl
arrive-unread (a ∷ s) c e = rw (add_all_lem, e) (append_assoc c.input_queue a (flatten s))

-- Looking at the queue loses no line and changes no order, and it answers `false` only when no line
-- is queued.
pub input_available-unread :
    (c : InputController)
    → let (available, c') = input_available c in
      (unread c' ≡ unread c) × (available ≡ false → c'.input_queue ≡ [])
unfolding input_available
input_available-unread c = (arrive-unread c.arriving c refl, λ e. ground arith)

read_input-front :
    (q : List Text) (c : InputController)
    → c.input_queue ≡ q
    → is_empty q ≡ false
    → (l : Text) × (c' : InputController) × (read_input c ≡ ok (l, c')) × (unread c ≡ l ∷ unread c')
unfolding read_input
read_input-front [] c e h = cc
read_input-front (l ∷ ls) c e h =
    (l, record c { input_queue = ls }, rw e, ap (λ q. q ++ flatten c.arriving) e)

-- After a look that answers `true`, a read returns the oldest unread line and leaves the others.
pub read_input-oldest :
    (c : InputController)
    → (input_available c).0 ≡ true
    → (l : Text) × (c' : InputController) × (read_input (input_available c).1 ≡ ok (l, c'))
      × (unread c ≡ l ∷ unread c')
read_input-oldest c h =
    let c₁ = (input_available c).1 in
    let (l, c', e, u) =
      read_input-front c₁.input_queue c₁ refl (unfold input_available in ground arith) in
    (l, c', e, sym (input_available-unread c).0 ∙ u)

-- A call of one of the methods.
pub data Call : Type 0 where
  looks reads : Call
  adds : Text → Call

-- A read of an empty queue has no controller to go on with.
unfoldable pub perform_call : Call → InputController → Option InputController
perform_call looks c = some (input_available c).1
perform_call reads c = elim (read_input c) [ ok (l, c') ↦ some c' | fault f ↦ none ]
perform_call (adds l) c = some (add_input l c)

unfoldable pub run_history : List Call → InputController → Option InputController
run_history [] c = some c
run_history (x ∷ xs) c = elim (perform_call x c) [ none ↦ none | some c' ↦ run_history xs c' ]

pub arrive-joinable :
    (s : List (List Text)) (c : InputController) → (arrive s c).joinable ≡ c.joinable
unfolding arrive
arrive-joinable [] c = refl
arrive-joinable (a ∷ s) c = rw add_all_lem

perform_call-joinable :
    (x : Call) (c c' : InputController) → perform_call x c ≡ some c' → c'.joinable ≡ c.joinable
unfolding perform_call read_input input_available add_input
perform_call-joinable looks c c' e = ground (arith, arrive-joinable c.arriving c)
perform_call-joinable reads c c' e = ground arith
perform_call-joinable (adds l) c c' e = ground arith

run_history-joinable :
    (xs : List Call) (c c' : InputController)
    → run_history xs c ≡ some c'
    → c'.joinable ≡ c.joinable
unfolding run_history
run_history-joinable [] c c' e = ground arith
run_history-joinable (x ∷ xs) c c' e = elim (Option-cases (perform_call x c)) [
  | inl n ↦ ground arith
  | inr (c₁, e₁) ↦
      run_history-joinable xs c₁ c' (rw (e₁, run_history) at e) ∙ perform_call-joinable x c c₁ e₁
]

-- After any history of calls on a new controller, in which no empty queue is read, the destructor
-- ends the program by `std::terminate`: no method joins or detaches the thread.
pub destroy-run_history_terminates :
    (arriving : List (List Text)) (xs : List Call) (c : InputController)
    → run_history xs (of_schedule arriving) ≡ some c
    → destroy c ≡ fault terminate
unfolding destroy of_schedule
destroy-run_history_terminates arriving xs c e =
    ground (arith, run_history-joinable xs (of_schedule arriving) c e)
