-- ===== src/Receiving.antt =====
-- What Server.cpp's `processPendingPackets` and Client.cpp's `processReceivedPackets` have in common: a
-- loop that receives one message in each round, hands it to a callback, and gives it back.
pub mod Rounds
pub mod Looping
pub mod Ending
pub mod Whole
use chaos_in_multiplayer.Base.{
  ℕ, pos, to_size_t, zero, suc, ◌≤◌, ◌≡◌, refl, ap, Bool, true, false, some, List, [], ◌∷◌, ◌++◌,
  map, length, map-append,
}
use chaos_in_multiplayer.Platform.{Platform, Event, Message, Received}
use chaos_in_multiplayer.Program.{Outcome, ok, World, Action}
use chaos_in_multiplayer.Packet.{Packet, max_size}

-- The calls of the packet callback among some events: the connection and the bytes.
abbrev pub deliveries : List Event → List (ℕ × List ℕ)
deliveries [] = []
deliveries (Event.call_packet_callback f k bs ∷ es) = (k, bs) ∷ deliveries es
deliveries (e ∷ es) = deliveries es

-- The messages given back.
abbrev pub releases : List Event → List Message
releases [] = []
releases (Event.release m ∷ es) = m ∷ releases es
releases (e ∷ es) = releases es

pub deliveries-append :
    (xs ys : List Event) → deliveries (xs ++ ys) ≡ deliveries xs ++ deliveries ys
deliveries-append [] ys = refl
deliveries-append (Event.call_packet_callback f k bs ∷ xs) ys =
    ap (◌∷◌ (k, bs)) (deliveries-append xs ys)
deliveries-append (e ∷ xs) ys = deliveries-append xs ys

pub releases-append : (xs ys : List Event) → releases (xs ++ ys) ≡ releases xs ++ releases ys
releases-append [] ys = refl
releases-append (Event.release m ∷ xs) ys = ap (◌∷◌ m) (releases-append xs ys)
releases-append (e ∷ xs) ys = releases-append xs ys

abbrev pub delivery : Message → ℕ × List ℕ
delivery m = (m.conn, m.bytes)

-- What the application is given of some messages, with a callback or without.
abbrev pub given : Bool → List Message → List (ℕ × List ℕ)
given true ms = map delivery ms
given false ms = []

pub given-append :
    (told : Bool) (xs ys : List Message) → given told (xs ++ ys) ≡ given told xs ++ given told ys
given-append true xs ys = map-append delivery xs ys
given-append false xs ys = refl

pub given-nothing : (told : Bool) → given told [] ≡ []
given-nothing true = refl
given-nothing false = refl

-- A message of a known connection whose size is that of its data.
pub record IsDeliverable (known : ℕ → Bool) (m : Message) : Type 0 where
  pub from : known m.conn ≡ true
  pub sized : to_size_t m.size ≡ length m.bytes
  pub fits : length m.bytes ≤ max_size

-- What the platform documents of receiving with room for one message: it takes the first waiting
-- message and returns 1, or returns 0 when none waits. Giving a message back takes none.
pub record IsInbox {Env : Type 0} (p : Platform Env) (receive : Env → Received × Env)
    (inbox : Env → List Message) : Type 0 where
  pub nothing :
      (env : Env)
      → inbox env ≡ []
      → let (received, env') = receive env in (received.count ≡ pos 0) × (inbox env' ≡ [])
  pub first :
      (env : Env) (m : Message) (ms : List Message)
      → inbox env ≡ m ∷ ms
      → let (received, env') = receive env in
        (received.count ≡ pos 1) × (received.message ≡ some m) × (inbox env' ≡ ms)
  pub released : (env : Env) (m : Message) → inbox (p.release m env) ≡ inbox env

-- From `w` to `w'` the messages `ms` were given back, in order, and before that handed to the callback
-- if there is one; `rest` still waits, and the object is still as `Serving` says.
pub record Delivered {S Env : Type 0} (inbox : Env → List Message) (Serving : S → Type 0)
    (told : Bool) (w w' : World S Env) (ms rest : List Message) : Type 0 where
  pub serving : Serving w'.object
  pub delivered : deliveries w'.trace ≡ deliveries w.trace ++ given told ms
  pub released : releases w'.trace ≡ releases w.trace ++ ms
  pub waiting : inbox w'.env ≡ rest

-- A callback that returns and, whatever else it does, receives nothing, and keeps what is served.
pub record IsQuiet {S Env : Type 0} (inbox : Env → List Message) (Serving : S → Type 0)
    (code : ℕ → Packet → Action S Env Unit) : Type 0 where
  pub returns : (k : ℕ) (q : Packet) (w : World S Env) → Serving w.object → (code k q w).0 ≡ ok tt
  pub quiet :
      (k : ℕ) (q : Packet) (w : World S Env)
      → Serving w.object
      → Delivered inbox Serving true w (code k q w).1 [] (inbox w.env)

module _ {S Env : Type 0} (inbox : Env → List Message) (Serving : S → Type 0) (told : Bool) where
  -- A call returned this, and delivered those messages.
  abbrev pub Receives :
      {A : Type 0}
      → World S Env
      → A
      → List Message
      → List Message
      → Outcome A × World S Env
      → Type 0
  Receives w r ms rest v = (v.0 ≡ ok r) × Delivered inbox Serving told w v.1 ms rest

  -- A round of the loop.
  pub record IsRound (Deliverable : Message → Type 0) (round : Action S Env Bool) : Type 0 where
    pub first :
        (m : Message) (ms : List Message) (w : World S Env)
        → inbox w.env ≡ m ∷ ms
        → Serving w.object
        → Deliverable m
        → Receives w true (m ∷ []) ms (round w)
    pub nothing :
        (w : World S Env) → inbox w.env ≡ [] → Serving w.object → Receives w false [] [] (round w)
