-- ===== src/Program/Keeps.antt =====
-- What an action keeps true of its object, and the faults that it avoids: one rule for each way to
-- build an action.
use chaos_in_multiplayer.Base.{
  ◌≢◌, Bool, true, false, Option, none, some, List, [], ◌∷◌, if◌then◌else◌, arith,
}
use chaos_in_multiplayer.Platform.{Event}
use chaos_in_multiplayer.Program.{
  Fault, assertion, Outcome, ok, fault, World, Action, ◌>>=◌, pure, stop, gets, call, lift, require,
  skip, modify, perform, note, assert, when, for_each, continue, if_set,
}

-- The property `P` of the object holds after `m`, if it held before, however `m` ends.
pub record Keeps {S Env A : Type 0} (P : S → Type 0) (m : Action S Env A) : Type 0 where
  pub at : (w : World S Env) → P w.object → P (m w).1.object

-- `m` never ends by the fault `x`.
pub record Avoids {S Env A : Type 0} (x : Fault) (m : Action S Env A) : Type 0 where
  pub at : (w : World S Env) → (m w).0 ≢ fault x

module _ {S Env A : Type 0} {P : S → Type 0} where
  pub Keeps-pure : (a : A) → Keeps {Env = Env} P (pure a)
  Keeps-pure a = record { at = λ w h. h }

  pub Keeps-stop : (f : Fault) → Keeps {Env = Env} {A = A} P (stop f)
  Keeps-stop f = record { at = λ w h. h }

  pub Keeps-gets : (f : S → A) → Keeps {Env = Env} P (gets f)
  Keeps-gets f = record { at = λ w h. h }

  pub Keeps-call : (e : Event) (f : Env → A × Env) → Keeps {S = S} P (call e f)
  Keeps-call e f = record { at = λ w h. h }

  pub Keeps-lift : (r : Outcome A) → Keeps {Env = Env} P (lift r)
  Keeps-lift r = record { at = λ w h. h }

  pub Keeps-require : (f : Fault) (o : Option A) → Keeps {Env = Env} P (require f o)
  Keeps-require f none = record { at = λ w h. h }
  Keeps-require f (some a) = record { at = λ w h. h }

  pub Keeps-if :
      (b : Bool) (m n : Action S Env A) → Keeps P m → Keeps P n → Keeps P (if b then m else n)
  Keeps-if true m n km kn = km
  Keeps-if false m n km kn = kn

module _ {S Env : Type 0} {P : S → Type 0} where
  pub Keeps-skip : Keeps {Env = Env} P skip
  Keeps-skip = record { at = λ w h. h }

  pub Keeps-modify : (f : S → S) → ((s : S) → P s → P (f s)) → Keeps {Env = Env} P (modify f)
  Keeps-modify f k = record { at = λ w h. k w.object h }

  pub Keeps-perform : (e : Event) (f : Env → Env) → Keeps {S = S} P (perform e f)
  Keeps-perform e f = record { at = λ w h. h }

  pub Keeps-note : (e : Event) → Keeps {Env = Env} P (note e)
  Keeps-note e = record { at = λ w h. h }

  pub Keeps-assert : (b : Bool) → Keeps {Env = Env} P (assert b)
  Keeps-assert true = record { at = λ w h. h }
  Keeps-assert false = record { at = λ w h. h }

  pub Keeps-when : (b : Bool) (m : Action S Env Unit) → Keeps P m → Keeps P (when b m)
  Keeps-when true m k = k
  Keeps-when false m k = record { at = λ w h. h }

module _ {S Env A B : Type 0} {P : S → Type 0} where
  pub Keeps-if_set :
      (o : Option A) (m : Action S Env B) (f : A → Action S Env B)
      → Keeps P m
      → ((a : A) → Keeps P (f a))
      → Keeps P (if_set o m f)
  Keeps-if_set none m f km kf = km
  Keeps-if_set (some a) m f km kf = kf a

  Keeps-continue :
      (r : Outcome A) (f : A → Action S Env B) → ((a : A) → Keeps P (f a)) → Keeps P (continue r f)
  Keeps-continue (ok a) f k = record { at = λ w h. (k a).at w h }
  Keeps-continue (fault x) f k = record { at = λ w h. h }

  pub Keeps-bind :
      (m : Action S Env A) (f : A → Action S Env B)
      → Keeps P m
      → ((a : A) → Keeps P (f a))
      → Keeps P (m >>= f)
  Keeps-bind m f km kf = record {
    at = λ w h. let (r, w') = m w in (Keeps-continue r f kf).at w' (km.at w h);
  }

module _ {S Env X : Type 0} {P : S → Type 0} where
  pub Keeps-for_each :
      (xs : List X) (f : X → Action S Env Unit)
      → ((x : X) → Keeps P (f x))
      → Keeps P (for_each xs f)
  unfolding for_each
  Keeps-for_each [] f k = Keeps-skip
  Keeps-for_each (x ∷ xs) f k =
      Keeps-bind (f x) (λ _. for_each xs f) (k x) (λ _. Keeps-for_each xs f k)

pub ruleset keeps_rules = (
  Keeps-pure, Keeps-stop, Keeps-gets, Keeps-call, Keeps-lift, Keeps-require, Keeps-if, Keeps-if_set,
  Keeps-skip, Keeps-perform, Keeps-note, Keeps-assert, Keeps-when, Keeps-bind, Keeps-for_each,
)

module _ {S Env A B : Type 0} {x : Fault} where
  Avoids-continue :
      (r : Outcome A) (f : A → Action S Env B)
      → r ≢ fault x
      → ((a : A) → Avoids x (f a))
      → Avoids x (continue r f)
  Avoids-continue (ok a) f n k = record { at = λ w. (k a).at w }
  Avoids-continue (fault y) f n k = record { at = λ w e. n (ground arith) }

  pub Avoids-bind :
      (m : Action S Env A) (f : A → Action S Env B)
      → Avoids x m
      → ((a : A) → Avoids x (f a))
      → Avoids x (m >>= f)
  Avoids-bind m f am af = record {
    at = λ w. let (r, w') = m w in (Avoids-continue r f (am.at w) af).at w';
  }

module _ {S Env A : Type 0} {x : Fault} where
  pub Avoids-pure : (a : A) → Avoids {S = S} {Env = Env} x (pure a)
  Avoids-pure a = record { at = λ w e. cc }

  pub Avoids-stop : (y : Fault) → y ≢ x → Avoids {S = S} {Env = Env} {A = A} x (stop y)
  Avoids-stop y n = record { at = λ w e. n (ground arith) }

  pub Avoids-gets : (f : S → A) → Avoids {Env = Env} x (gets f)
  Avoids-gets f = record { at = λ w e. cc }

  pub Avoids-call : (e : Event) (f : Env → A × Env) → Avoids {S = S} x (call e f)
  Avoids-call e f = record { at = λ w e. cc }

  pub Avoids-lift : (r : Outcome A) → r ≢ fault x → Avoids {S = S} {Env = Env} x (lift r)
  Avoids-lift r n = record { at = λ w e. n e }

  pub Avoids-require :
      (y : Fault) (o : Option A) → y ≢ x → Avoids {S = S} {Env = Env} x (require y o)
  Avoids-require y none n = record { at = λ w e. n (ground arith) }
  Avoids-require y (some a) n = record { at = λ w e. cc }

  pub Avoids-if :
      (b : Bool) (m n : Action S Env A) → Avoids x m → Avoids x n → Avoids x (if b then m else n)
  Avoids-if true m n am an = am
  Avoids-if false m n am an = an

module _ {S Env : Type 0} {x : Fault} where
  pub Avoids-perform : (e : Event) (f : Env → Env) → Avoids {S = S} x (perform e f)
  Avoids-perform e f = record { at = λ w e. cc }

  pub Avoids-note : (e : Event) → Avoids {S = S} {Env = Env} x (note e)
  Avoids-note e = record { at = λ w e. cc }

  pub Avoids-assert : (b : Bool) → assertion ≢ x → Avoids {S = S} {Env = Env} x (assert b)
  Avoids-assert true n = record { at = λ w e. cc }
  Avoids-assert false n = record { at = λ w e. n (ground arith) }

  pub Avoids-skip : Avoids {S = S} {Env = Env} x skip
  Avoids-skip = record { at = λ w e. cc }

  pub Avoids-modify : (f : S → S) → Avoids {Env = Env} x (modify f)
  Avoids-modify f = record { at = λ w e. cc }

  pub Avoids-when : (b : Bool) (m : Action S Env Unit) → Avoids x m → Avoids x (when b m)
  Avoids-when true m k = k
  Avoids-when false m k = record { at = λ w e. cc }

module _ {S Env A B : Type 0} {x : Fault} where
  pub Avoids-if_set :
      (o : Option A) (m : Action S Env B) (f : A → Action S Env B)
      → Avoids x m
      → ((a : A) → Avoids x (f a))
      → Avoids x (if_set o m f)
  Avoids-if_set none m f km kf = km
  Avoids-if_set (some a) m f km kf = kf a

module _ {S Env X : Type 0} {x : Fault} where
  pub Avoids-for_each :
      (xs : List X) (f : X → Action S Env Unit)
      → ((a : X) → Avoids x (f a))
      → Avoids x (for_each xs f)
  unfolding for_each
  Avoids-for_each [] f k = Avoids-skip
  Avoids-for_each (a ∷ xs) f k =
      Avoids-bind (f a) (λ _. for_each xs f) (k a) (λ _. Avoids-for_each xs f k)

pub ruleset avoids_rules = (
  Avoids-skip, Avoids-modify, Avoids-for_each, Avoids-if_set, Avoids-pure, Avoids-stop, Avoids-gets,
  Avoids-call, Avoids-lift, Avoids-require, Avoids-if, Avoids-perform, Avoids-note, Avoids-assert,
  Avoids-when, Avoids-bind,
)
