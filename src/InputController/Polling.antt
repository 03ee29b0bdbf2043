-- ===== src/InputController/Polling.antt =====
-- `InputController::pollInput` with the readers that it starts by `std::async`, as a step relation:
-- the thread, the readers and the destructor move in any order.
use chaos_in_multiplayer.Base.{
  ◌≡◌, ◌≢◌, refl, sym, subst, ◌⊎◌, inl, inr, Bool, true, false, List, [], ◌∷◌, ◌++◌, Text, arith,
}

-- The outer variable `input_future`.
pub data Future : Type 0 where
  -- its reader waits in `std::getline`
  waiting : Future
  ready : Text → Future
  -- after `get`, which leaves no shared state: `wait_for` is then undefined
  invalid : Future

-- Where the thread stands.
pub data Position : Type 0 where
  -- at the test of the loop
  looping : Position
  -- at the end of the `if`: the inner `input_future`, which hides the outer one, is destroyed there,
  -- and that waits for its reader
  leaving_if : Position
  -- the loop has ended
  finished : Position
  -- `wait_for` was called on an invalid future
  undefined : Position

pub record Poller : Type 0 where
  pub position : Position
  pub input_future : Future
  pub exit_requested : Bool
  -- the lines that are still to be typed
  pub stdin : List Text
  -- the calls of `addInput` so far
  pub added : List Text

-- The thread when it enters the loop.
abbrev pub of_stdin : List Text → Poller
of_stdin lines = record {
  position = looping;
  input_future = waiting;
  exit_requested = false;
  stdin = lines;
  added = [];
}

pub data Step (s : Poller) (t : Poller) : Type 0 where
  -- the outer reader gets its line
  reader_returns :
      (l : Text) (ls : List Text)
      → s.input_future ≡ waiting
      → s.stdin ≡ l ∷ ls
      → t ≡ record s { input_future = ready l; stdin = ls }
      → Step s t
  -- one round in which no line is ready
  round_without_input :
      s.position ≡ looping → s.exit_requested ≡ false → s.input_future ≡ waiting → t ≡ s → Step s t
  -- `get`, `addInput`, and the start of the inner reader
  round_with_input :
      (l : Text)
      → s.position ≡ looping
      → s.exit_requested ≡ false
      → s.input_future ≡ ready l
      → t ≡ record s { position = leaving_if; input_future = invalid; added = s.added ++ l ∷ [] }
      → Step s t
  -- the inner reader gets its line, which goes with the inner future
  inner_reader_returns :
      (l : Text) (ls : List Text)
      → s.position ≡ leaving_if
      → s.stdin ≡ l ∷ ls
      → t ≡ record s { position = looping; stdin = ls }
      → Step s t
  round_on_invalid :
      s.position ≡ looping
      → s.exit_requested ≡ false
      → s.input_future ≡ invalid
      → t ≡ record s { position = undefined }
      → Step s t
  -- `while (!exit_requested)` fails
  loop_ends :
      s.position ≡ looping
      → s.exit_requested ≡ true
      → t ≡ record s { position = finished }
      → Step s t
  -- the destructor's body, in another thread
  exit_is_requested : t ≡ record s { exit_requested = true } → Step s t

pub data Reach (s : Poller) : Poller → Type 0 where
  here : Reach s s
  next : {t u : Poller} → Reach s t → Step t u → Reach s u

-- The first line, if there is one.
abbrev pub first_of_lines : List Text → List Text
first_of_lines [] = []
first_of_lines (l ∷ ls) = l ∷ []

-- Either nothing is added yet and the first future is still good, or the first typed line is added
-- and the future is spent.
pub data Progress (lines : List Text) (s : Poller) : Type 0 where
  untouched :
      s.added ≡ []
      → s.input_future ≡ waiting
      → s.stdin ≡ lines
      → s.position ≢ leaving_if
      → Progress lines s
  arrived :
      (l : Text)
      → s.added ≡ []
      → s.input_future ≡ ready l
      → first_of_lines lines ≡ l ∷ []
      → s.position ≢ leaving_if
      → Progress lines s
  spent : s.added ≡ first_of_lines lines → s.input_future ≡ invalid → Progress lines s

Step-Progress : (lines : List Text) (s t : Poller) → Step s t → Progress lines s → Progress lines t
Step-Progress lines s t (reader_returns l ls w i e) (untouched a f o q) =
    arrived l (ground arith) (ground arith) (ground arith) (ground arith)
Step-Progress lines s t (reader_returns l ls w i e) (arrived k a f o q) = absurd (cc)
Step-Progress lines s t (reader_returns l ls w i e) (spent a f) = absurd (cc)
Step-Progress lines s t (round_without_input p x w e) g = subst (Progress lines) (sym e) g
Step-Progress lines s t (round_with_input l p x f e) (untouched a f' o q) = absurd (cc)
Step-Progress lines s t (round_with_input l p x f e) (arrived k a f' o q) =
    spent (ground arith) (ground arith)
Step-Progress lines s t (round_with_input l p x f e) (spent a f') = absurd (cc)
Step-Progress lines s t (inner_reader_returns l ls p i e) (untouched a f o q) = absurd (q p)
Step-Progress lines s t (inner_reader_returns l ls p i e) (arrived k a f o q) = absurd (q p)
Step-Progress lines s t (inner_reader_returns l ls p i e) (spent a f) =
    spent (ground arith) (ground arith)
Step-Progress lines s t (round_on_invalid p x f e) (untouched a f' o q) = absurd (cc)
Step-Progress lines s t (round_on_invalid p x f e) (arrived k a f' o q) = absurd (cc)
Step-Progress lines s t (round_on_invalid p x f e) (spent a f') =
    spent (ground arith) (ground arith)
Step-Progress lines s t (loop_ends p x e) (untouched a f o q) =
    untouched (ground arith) (ground arith) (ground arith) (ground arith)
Step-Progress lines s t (loop_ends p x e) (arrived k a f o q) =
    arrived k (ground arith) (ground arith) o (ground arith)
Step-Progress lines s t (loop_ends p x e) (spent a f) = spent (ground arith) (ground arith)
Step-Progress lines s t (exit_is_requested e) (untouched a f o q) =
    untouched (ground arith) (ground arith) (ground arith) (ground arith)
Step-Progress lines s t (exit_is_requested e) (arrived k a f o q) =
    arrived k (ground arith) (ground arith) o (ground arith)
Step-Progress lines s t (exit_is_requested e) (spent a f) = spent (ground arith) (ground arith)

Reach-Progress : (lines : List Text) {t : Poller} → Reach (of_stdin lines) t → Progress lines t
Reach-Progress lines here = untouched refl refl refl (λ e. cc)
Reach-Progress lines (next {t} {u} r st) = Step-Progress lines t u st (Reach-Progress lines r)

Progress-added :
    (lines : List Text) (s : Poller)
    → Progress lines s
    → (s.added ≡ []) ⊎ (s.added ≡ first_of_lines lines)
Progress-added lines s (untouched a f o q) = inl a
Progress-added lines s (arrived l a f o q) = inl a
Progress-added lines s (spent a f) = inr a

-- Whatever is typed and however the threads interleave, the polling thread never adds a line but
-- the first one, and that once.
pub Reach-added :
    (lines : List Text) {t : Poller}
    → Reach (of_stdin lines) t
    → (t.added ≡ []) ⊎ (t.added ≡ first_of_lines lines)
Reach-added lines {t} r = Progress-added lines t (Reach-Progress lines r)

-- With two lines typed and no exit requested, the thread can go on to wait on an invalid future;
-- the second line is read and lost on the way.
pub Reach-undefined :
    (l k : Text) (rest : List Text)
    → Reach (of_stdin (l ∷ k ∷ rest)) (record {
      position = undefined;
      input_future = invalid;
      exit_requested = false;
      stdin = rest;
      added = l ∷ [];
    })
Reach-undefined l k rest =
    next
      (next
        (next (next here (reader_returns l (k ∷ rest) refl refl refl))
          (round_with_input l refl refl refl refl))
        (inner_reader_returns k rest refl refl refl))
      (round_on_invalid refl refl refl refl)
