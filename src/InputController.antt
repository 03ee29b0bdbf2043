-- ===== src/InputController.antt =====
-- Include/Common/InputController.h and Source/Common/InputController.cpp: the queue of typed
-- lines. Each method holds the mutex from start to end, so it is one step here; what the polling
-- thread adds between two steps of the caller is the schedule `arriving`.
pub mod Queue
pub mod Polling
use chaos_in_multiplayer.Base.{
  ℕ, suc, ◌+◌, Bool, true, false, List, [], ◌∷◌, ◌++◌, Text, if◌then◌else◌, length,
}
use chaos_in_multiplayer.Program.{undefined, terminate, Outcome, ok, fault}

pub record InputController : Type 0 where
  pub exit_requested : Bool
  -- oldest first
  pub input_queue : List Text
  -- what the polling thread adds before each coming look at the queue
  pub arriving : List (List Text)
  -- whether `poll_input_thread` stands for a thread that has been neither joined nor detached
  pub joinable : Bool

-- The constructor starts the thread.
unfoldable pub of_schedule : List (List Text) → InputController
of_schedule arriving = record {
  exit_requested = false;
  input_queue = [];
  arriving = arriving;
  joinable = true;
}

unfoldable pub add_input : Text → InputController → InputController
add_input input c = record c { input_queue = c.input_queue ++ input ∷ [] }

-- The lines of the next entry of the schedule, added one by one.
unfoldable pub add_all : List Text → InputController → InputController
unfolding add_input
add_all [] c = c
add_all (l ∷ ls) c = add_all ls (add_input l c)

unfoldable pub arrive : List (List Text) → InputController → InputController
unfolding add_all
arrive [] c = c
arrive (a ∷ as') c = add_all a (record c { arriving = as' })

abbrev is_empty : List Text → Bool
is_empty [] = true
is_empty (l ∷ ls) = false

-- The controller as the caller finds it, and `!input_queue.empty()`.
unfoldable pub input_available : InputController → Bool × InputController
unfolding arrive
input_available c =
    let c' = arrive c.arriving c in (if is_empty c'.input_queue then false else true, c')

abbrev pub pop_front : List Text → InputController → Outcome (Text × InputController)
pop_front [] c = fault undefined
pop_front (l ∷ ls) c = ok (l, record c { input_queue = ls })

-- `front` and `pop` of an empty queue are undefined.
unfoldable pub read_input : InputController → Outcome (Text × InputController)
read_input c = pop_front c.input_queue c

abbrev end_thread : Bool → Outcome Unit
end_thread true = fault terminate
end_thread false = ok tt

-- The destructor: its body, then the members' destructors, of which that of a `std::thread` that is
-- still joinable calls `std::terminate`.
unfoldable pub destroy : InputController → Outcome Unit
destroy c = let c' = record c { exit_requested = true } in end_thread c'.joinable
