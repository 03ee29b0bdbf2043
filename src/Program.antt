-- ===== src/Program.antt =====
-- How the model runs C++: a call takes the world and gives its result, or the way in which the
-- program stopped, with the world as it was left.
pub mod Keeps
pub mod Fails
pub mod Safe
use chaos_in_multiplayer.Base.{ℕ, List, [], ◌∷◌, ◌++◌, Option, none, some, Bool, true, false}
use chaos_in_multiplayer.Platform.{Event}

-- The ways not to return.
pub data Fault : Type 0 where
  -- a failed `assert`
  assertion : Fault
  -- exceptions that nothing in the library catches
  out_of_range length_error : Fault
  -- a call through an empty `std::function`
  bad_function_call : Fault
  -- `std::exit`
  exit : ℕ → Fault
  -- `std::terminate`
  terminate : Fault
  -- the fuel of a loop of the model ran out; no code stands behind it
  unfinished : Fault
  -- behaviour that the language leaves undefined, such as a null pointer that is followed
  undefined : Fault

pub data Outcome (A : Type 0) : Type 0 where
  ok : A → Outcome A
  fault : Fault → Outcome A

-- The object at work, the state behind the networking interface, and the events so far.
pub record World (S Env : Type 0) : Type 0 where
  pub object : S
  pub env : Env
  pub trace : List Event

abbrev pub Action : Type 0 → Type 0 → Type 0 → Type 0
Action S Env A = World S Env → Outcome A × World S Env

module _ {S Env A : Type 0} where
  abbrev pub pure : A → Action S Env A
  pure a w = (ok a, w)

  abbrev pub stop : Fault → Action S Env A
  stop f w = (fault f, w)

  abbrev pub gets : (S → A) → Action S Env A
  gets f w = (ok (f w.object), w)

  -- A call of the platform, with the event that records it.
  abbrev pub call : Event → (Env → A × Env) → Action S Env A
  call e f w = let (a, env') = f w.env in (ok a, record w { env = env'; trace = w.trace ++ e ∷ [] })

  abbrev pub lift : Outcome A → Action S Env A
  lift r w = (r, w)

  -- A value that has to be there.
  abbrev pub require : Fault → Option A → Action S Env A
  require f none w = (fault f, w)
  require f (some a) w = (ok a, w)

module _ {S Env A B : Type 0} where
  abbrev pub continue : Outcome A → (A → Action S Env B) → Action S Env B
  continue (ok a) f w = f a w
  continue (fault x) f w = (fault x, w)

  -- On a member that may be empty.
  abbrev pub if_set : Option A → Action S Env B → (A → Action S Env B) → Action S Env B
  if_set none m f = m
  if_set (some a) m f = f a

  infixl 5 ◌>>=◌ ◌>>◌
  abbrev pub ◌>>=◌ : Action S Env A → (A → Action S Env B) → Action S Env B
  ◌>>=◌ m f w = let (r, w') = m w in continue r f w'

  abbrev pub ◌>>◌ : Action S Env A → Action S Env B → Action S Env B
  m >> k = m >>= λ _. k

module _ {S Env : Type 0} where
  abbrev pub skip : Action S Env Unit
  skip w = (ok tt, w)

  abbrev pub modify : (S → S) → Action S Env Unit
  modify f w = (ok tt, record w { object = f w.object })

  -- A call of the platform whose result is not read.
  abbrev pub perform : Event → (Env → Env) → Action S Env Unit
  perform e f w = (ok tt, record w { env = f w.env; trace = w.trace ++ e ∷ [] })

  -- A line of the log, or a call of a callback that is about to be made.
  abbrev pub note : Event → Action S Env Unit
  note e w = (ok tt, record w { trace = w.trace ++ e ∷ [] })

  -- `assert`, in a build that keeps its assertions.
  abbrev pub assert : Bool → Action S Env Unit
  assert true w = (ok tt, w)
  assert false w = (fault assertion, w)

  abbrev pub when : Bool → Action S Env Unit → Action S Env Unit
  when true m = m
  when false m = skip

  -- `for (x : xs)`.
  unfoldable pub for_each : {X : Type 0} → List X → (X → Action S Env Unit) → Action S Env Unit
  for_each [] f = skip
  for_each (x ∷ xs) f = f x >> for_each xs f

-- An action on a part of the object.
module _ {S T Env A : Type 0} where
  abbrev pub on_part : (S → T) → (T → S → S) → Action T Env A → Action S Env A
  on_part get put m w =
      let (r, w') = m (record { object = get w.object; env = w.env; trace = w.trace }) in
      (r, record { object = put w'.object w.object; env = w'.env; trace = w'.trace })
