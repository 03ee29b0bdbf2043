-- ===== src/Program/Safe.antt =====
-- Actions that keep a property of the object and, from it, avoid a fault: one rule for each way to
-- build an action.
use chaos_in_multiplayer.Base.{
  ℕ, ◌≡◌, ◌≢◌, refl, Bool, true, false, Option, none, some, List, [], ◌∷◌, if◌then◌else◌, is_some,
  arith,
}
use chaos_in_multiplayer.Platform.{Event}
use chaos_in_multiplayer.Program.{
  Fault, assertion, out_of_range, bad_function_call, exit, unfinished, undefined, Outcome, ok,
  fault, World, Action, ◌>>=◌, pure, stop, gets, call, lift, require, skip, modify, perform, note,
  assert, when, for_each, continue, if_set,
}
use chaos_in_multiplayer.Program.Keeps.{
  Avoids, Avoids-pure, Avoids-stop, Avoids-gets, Avoids-call, Avoids-lift, Avoids-modify,
  Avoids-perform, Avoids-note, Avoids-skip,
}

-- From an object and a state of the platform with the property `P`, `m` does not end by the fault
-- `x`, and `P` holds after it.
pub record Safe {S Env A : Type 0} (P : S → Env → Type 0) (x : Fault) (m : Action S Env A)
    : Type 0 where
  pub at : (w : World S Env) → P w.object w.env → ((m w).0 ≢ fault x) × P (m w).1.object (m w).1.env

module _ {S Env A : Type 0} {P : S → Env → Type 0} {x : Fault} where
  pub Safe-of :
      (m : Action S Env A)
      → ((w : World S Env) → P w.object w.env → P (m w).1.object (m w).1.env)
      → Avoids x m
      → Safe P x m
  Safe-of m k a = record { at = λ w h. (a.at w, k w h) }

  pub Safe-pure : (a : A) → Safe P x (pure a)
  Safe-pure a = Safe-of (pure a) (λ w h. h) (Avoids-pure a)

  pub Safe-stop : (y : Fault) → y ≢ x → Safe {A = A} P x (stop y)
  Safe-stop y n = Safe-of (stop y) (λ w h. h) (Avoids-stop y n)

  pub Safe-gets : (f : S → A) → Safe P x (gets f)
  Safe-gets f = Safe-of (gets f) (λ w h. h) (Avoids-gets f)

  pub Safe-call :
      (e : Event) (f : Env → A × Env)
      → ((s : S) (env : Env) → P s env → P s (f env).1)
      → Safe P x (call e f)
  Safe-call e f k = Safe-of (call e f) (λ w. k w.object w.env) (Avoids-call e f)

  pub Safe-lift : (r : Outcome A) → r ≢ fault x → Safe P x (lift r)
  Safe-lift r n = Safe-of (lift r) (λ w h. h) (Avoids-lift r n)

  pub Safe-require : (y : Fault) (o : Option A) → y ≢ x → Safe P x (require y o)
  Safe-require y none n = Safe-stop y n
  Safe-require y (some a) n = Safe-pure a

  -- A value that is there.
  pub Safe-required : (y : Fault) (o : Option A) → is_some o ≡ true → Safe P x (require y o)
  Safe-required y none h = cc
  Safe-required y (some a) h = Safe-pure a

  pub Safe-if :
      (b : Bool) (m n : Action S Env A) → Safe P x m → Safe P x n → Safe P x (if b then m else n)
  Safe-if true m n s t = s
  Safe-if false m n s t = t

module _ {S Env : Type 0} {P : S → Env → Type 0} {x : Fault} where
  pub Safe-skip : Safe P x skip
  Safe-skip = Safe-of skip (λ w h. h) Avoids-skip

  pub Safe-modify :
      (f : S → S) → ((s : S) (env : Env) → P s env → P (f s) env) → Safe P x (modify f)
  Safe-modify f k = Safe-of (modify f) (λ w. k w.object w.env) (Avoids-modify f)

  pub Safe-perform :
      (e : Event) (f : Env → Env)
      → ((s : S) (env : Env) → P s env → P s (f env))
      → Safe P x (perform e f)
  Safe-perform e f k = Safe-of (perform e f) (λ w. k w.object w.env) (Avoids-perform e f)

  pub Safe-note : (e : Event) → Safe P x (note e)
  Safe-note e = Safe-of (note e) (λ w h. h) (Avoids-note e)

  pub Safe-assert : (b : Bool) → assertion ≢ x → Safe P x (assert b)
  Safe-assert true n = Safe-skip
  Safe-assert false n = Safe-stop assertion n

  -- The test may be used.
  pub Safe-when : (b : Bool) (m : Action S Env Unit) → (b ≡ true → Safe P x m) → Safe P x (when b m)
  Safe-when true m s = s refl
  Safe-when false m s = Safe-skip

module _ {S Env A B : Type 0} {P : S → Env → Type 0} {x : Fault} where
  pub Safe-if_set :
      (o : Option A) (m : Action S Env B) (f : A → Action S Env B)
      → Safe P x m
      → ((a : A) → Safe P x (f a))
      → Safe P x (if_set o m f)
  Safe-if_set none m f s t = s
  Safe-if_set (some a) m f s t = t a

  Safe-continue :
      (r : Outcome A) (f : A → Action S Env B)
      → r ≢ fault x
      → ((a : A) → Safe P x (f a))
      → Safe P x (continue r f)
  Safe-continue (ok a) f n s = record { at = λ w h. (s a).at w h }
  Safe-continue (fault y) f n s = record { at = λ w h. (λ e. n (ground arith), h) }

  pub Safe-bind :
      (m : Action S Env A) (f : A → Action S Env B)
      → Safe P x m
      → ((a : A) → Safe P x (f a))
      → Safe P x (m >>= f)
  Safe-bind m f s t = record {
    at = λ w h. let (r, w') = m w in let (n, k) = s.at w h in (Safe-continue r f n t).at w' k;
  }

  -- What follows may use what `P` says of the value that is read.
  pub Safe-read :
      (Q : A → Type 0) (g : S → A) (f : A → Action S Env B)
      → ((s : S) (env : Env) → P s env → Q (g s))
      → ((a : A) → Q a → Safe P x (f a))
      → Safe P x (gets g >>= f)
  Safe-read Q g f q t = record { at = λ w h. (t (g w.object) (q w.object w.env h)).at w h }

  -- What follows is given a value that is known to be there.
  pub Safe-known :
      (y : Fault) (o : Option A) (a : A) (f : A → Action S Env B)
      → o ≡ some a
      → Safe P x (f a)
      → Safe P x (require y o >>= f)
  Safe-known y o a f e s = rw e (record { at = s.at })

module _ {S Env X : Type 0} {P : S → Env → Type 0} {x : Fault} where
  pub Safe-for_each :
      (xs : List X) (f : X → Action S Env Unit)
      → ((a : X) → Safe P x (f a))
      → Safe P x (for_each xs f)
  unfolding for_each
  Safe-for_each [] f s = Safe-skip
  Safe-for_each (a ∷ xs) f s =
      Safe-bind (f a) (λ _. for_each xs f) (s a) (λ _. Safe-for_each xs f s)

pub ruleset safe_rules = (
  Safe-pure, Safe-stop, Safe-gets, Safe-call, Safe-lift, Safe-require, Safe-if, Safe-skip,
  Safe-perform, Safe-note, Safe-assert, Safe-when, Safe-if_set, Safe-bind, Safe-for_each,
)

pub assertion≢undefined : assertion ≢ undefined
assertion≢undefined e = cc

pub out_of_range≢undefined : out_of_range ≢ undefined
out_of_range≢undefined e = cc

pub bad_function_call≢undefined : bad_function_call ≢ undefined
bad_function_call≢undefined e = cc

pub exit≢undefined : (n : ℕ) → exit n ≢ undefined
exit≢undefined n e = cc

pub unfinished≢undefined : unfinished ≢ undefined
unfinished≢undefined e = cc

pub ruleset defined_rules = (
  assertion≢undefined, out_of_range≢undefined, bad_function_call≢undefined, exit≢undefined,
  unfinished≢undefined,
)
