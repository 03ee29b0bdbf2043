-- ===== src/ExampleServer/Admission.antt =====
-- Who is let in by the example server, and who hears of it.
use chaos_in_multiplayer.Base.{
  ℕ, ◌%◌, ◌^◌, ◌+◌, ◌<◌, ◌≡◌, refl, sym, ap, ◌∙◌, Bool, true, false, ◌&&◌, none, some, List, [],
  ◌∷◌, ◌++◌, map, arith, ◌==◌, ==-eq, if◌then◌else◌, Text, codes, Bool-cases, inl, inr, All, length,
  length-append, append-nil,
}
use chaos_in_multiplayer.Status.{ConnectionStatusChange}
use chaos_in_multiplayer.Platform.{Platform, Event, text}
use chaos_in_multiplayer.Program.{ok, World}
use chaos_in_multiplayer.UnorderedMap.{UnorderedMap, lookup, IsDistinct}
use chaos_in_multiplayer.ClientConnection.{ClientConnection}
use chaos_in_multiplayer.ClientConnection.Lifecycle.{IsLive}
use chaos_in_multiplayer.Server.{Server}
use chaos_in_multiplayer.Server.Clients.Registry.{IsRegistered, IsWellFormed}
use chaos_in_multiplayer.Server.Sending.{to_uint32}
use chaos_in_multiplayer.Server.Sending.Broadcast.{recipients, send_event, is_recipient}
use chaos_in_multiplayer.Server.Sending.Contents.{
  Content, content, sent_to, sent_to-append, sent_to-silent, sent_to-recipients,
}
use chaos_in_multiplayer.ExampleServer.Callbacks.{nick_of, on_connecting}
use chaos_in_multiplayer.ExampleServer.Handshake.{
  greeting, notification, length-nick_of, admitted, answered, polled, sent_away, welcomed, greeted,
  after_poll_group, after_acceptance, on_connecting-eq,
}

-- Both texts have a size that the platform is given whole.
greeting-whole :
    (nick : Text)
    → length nick + 20 < 2 ^ 32
    → length (greeting nick).packet % 2 ^ 32 ≡ length (greeting nick).packet
greeting-whole nick h = omega (arith, length-append nick (codes "!"))

notification-whole :
    (nick : Text)
    → length nick + 20 < 2 ^ 32
    → length (notification nick).packet % 2 ^ 32 ≡ length (notification nick).packet
notification-whole nick h = omega (arith, length-append nick (codes " joined the server!"))

module _ {Env : Type 0} (p : Platform Env) (rand : Env → ℕ × Env) where
  -- Whether the platform accepts the connection and puts it into the poll group.
  abbrev pub is_admitted : ℕ → ℕ → Env → Bool
  is_admitted k group env =
      let (result, env₁) = p.accept_connection k (rand env).1 in
      (result == p.result_ok) && (p.set_connection_poll_group k group env₁).0

  -- What a handle is sent when a client is let in: the new client the greeting, and each other
  -- connected client the notification, whole and reliably.
  abbrev pub heard : ℕ → ℕ → Text → UnorderedMap ClientConnection → List Content
  heard k h nick m =
      if h == k
      then content (greeting nick) p.send_reliable ∷ []
      else if is_recipient none h (lookup h m)
      then content (notification nick) p.send_reliable ∷ []
      else []

  sent_to-greeted :
      (h : ℕ) (nick : Text) (c : ClientConnection) (w : World Server Env)
      → sent_to h (greeted p rand nick c w).trace
        ≡ sent_to h w.trace
          ++ (if h == c.net_connection then content (greeting nick) p.send_reliable ∷ [] else [])
  sent_to-greeted h nick c w =
      let greet = send_event (greeting nick) p.send_reliable (c.net_connection, c) in
      let line = Event.log (text (notification nick).packet) in
      sent_to-silent h (w.trace ++ greet ∷ []) line refl ∙ sent_to-append h w.trace (greet ∷ [])

  -- Of the new client and the others, those that the notification is for.
  sent_to-notified :
      (k group h : ℕ) (nick : Text) (m : UnorderedMap ClientConnection)
      → IsDistinct m
      → All IsRegistered m
      → lookup k m ≡ none
      → let c = admitted p rand k group nick in
        sent_to h
          (map (send_event (notification nick) p.send_reliable) (recipients (some c) ((k, c) ∷ m)))
        ≡ (if h == k
            then []
            else if is_recipient none h (lookup h m)
            then content (notification nick) p.send_reliable ∷ []
            else [])
  unfolding lookup
  sent_to-notified k group h nick m d r e =
      let c = admitted p rand k group nick in
      let live : IsLive k c = ground arith in
      ground (
        arith,
        sent_to-recipients (notification nick) p.send_reliable h (some c) ((k, c) ∷ m) (e, d)
            (live, r),
      )

  sent_to-welcomed :
      (k group h : ℕ) (nick : Text) (w : World Server Env)
      → IsDistinct w.object.connections
      → All IsRegistered w.object.connections
      → lookup k w.object.connections ≡ none
      → sent_to h
          (welcomed p rand k nick (admitted p rand k group nick) w.object.connections w).trace
        ≡ sent_to h w.trace ++ heard k h nick w.object.connections
  sent_to-welcomed k group h nick w d r e =
      let c = admitted p rand k group nick in
      let m = w.object.connections in
      let told =
        map (send_event (notification nick) p.send_reliable) (recipients (some c) ((k, c) ∷ m)) in
      let split = sent_to-append h (greeted p rand nick c w).trace told in
      let greets = sent_to-greeted h nick c w in
      let tells = sent_to-notified k group h nick m d r e in
      elim (Bool-cases (h == k)) [
        | inl new ↦
            let greets' = rw new at greets in
            let tells' = rw new at tells in rw (new, split, greets', tells') (append-nil _)
        | inr other ↦
            let greets' = rw other at greets in
            let tells' = rw other at tells in
            rw (other, split, greets', tells')
              (ap
                (λ l.
                  l
                  ++ (if is_recipient none h (lookup h m)
                      then content (notification nick) p.send_reliable ∷ []
                      else []))
                (append-nil (sent_to h w.trace)))
      ]

  -- What a user sees of the answer: the entries, and who was sent what.
  abbrev Seen : ℕ → ℕ → ℕ → ℕ → Text → World Server Env → World Server Env → Bool → Type 0
  Seen k group h j nick w w' yes' =
      (lookup j w'.object.connections ≡ (
        if j == k
        then (if yes' then some (admitted p rand k group nick) else none)
        else lookup j w.object.connections))
      × (sent_to h w'.trace
          ≡ sent_to h w.trace ++ (if yes' then heard k h nick w.object.connections else []))

  Seen-sent_away :
      (k group h j : ℕ) (nick message : Text) (w : World Server Env)
      → lookup k w.object.connections ≡ none
      → Seen k group h j nick w (sent_away p rand k message w) false
  Seen-sent_away k group h j nick message w e = (
    ground (arith, ==-eq j k),
    sent_to-silent h (w.trace ++ Event.close_connection k 0 false ∷ []) (Event.log (text message))
          refl
        ∙ sent_to-silent h w.trace (Event.close_connection k 0 false) refl
        ∙ sym (append-nil (sent_to h w.trace)),
  )

  Seen-welcomed :
      (k group h j : ℕ) (nick : Text) (w : World Server Env)
      → IsWellFormed w.object
      → lookup k w.object.connections ≡ none
      → Seen k group h j nick w
          (welcomed p rand k nick (admitted p rand k group nick) w.object.connections w)
          true
  unfolding lookup
  Seen-welcomed k group h j nick w f e =
      (ground arith, sent_to-welcomed k group h nick w f.distinct f.registered e)

  Seen-after_poll_group :
      (k group h j : ℕ) (nick : Text) (w : World Server Env) (answer : Bool × Env)
      → IsWellFormed w.object
      → lookup k w.object.connections ≡ none
      → Seen k group h j nick w (after_poll_group p rand k group nick w answer) answer.0
  Seen-after_poll_group k group h j nick w (true, env) f e =
      let w' = polled p rand k group w env in
      let silent = sent_to-silent h w.trace (Event.set_connection_poll_group k group) refl in
      let (entry, sent) = Seen-welcomed k group h j nick w' f e in (entry, rw silent at sent)
  Seen-after_poll_group k group h j nick w (false, env) f e =
      let w' = polled p rand k group w env in
      let silent = sent_to-silent h w.trace (Event.set_connection_poll_group k group) refl in
      let (entry, sent) =
        Seen-sent_away k group h j nick (codes "Failed to set poll group?") w' e in
      (entry, rw silent at sent)

  Seen-after_acceptance :
      (k group h j : ℕ) (nick : Text) (w : World Server Env) (answer : ℕ × Env)
      → IsWellFormed w.object
      → lookup k w.object.connections ≡ none
      → Seen k group h j nick w
          (after_acceptance p rand k group nick w answer)
          ((answer.0 == p.result_ok) && (p.set_connection_poll_group k group answer.1).0)
  Seen-after_acceptance k group h j nick w (result, env) f e =
      let w' = answered p rand k w env in
      let silent = sent_to-silent h w.trace (Event.accept_connection k) refl in
      elim (Bool-cases (result == p.result_ok)) [
        | inl yes' ↦
            let (entry, sent) =
              Seen-after_poll_group k group h j nick w' (p.set_connection_poll_group k group env) f
                e in
            rw yes' (entry, rw silent at sent)
        | inr no' ↦
            let (entry, sent) =
              Seen-sent_away k group h j nick
                (codes "Can't accept connection. (It was already closed?)") w' e in
            rw no' (entry, rw silent at sent)
      ]

  -- Both texts have a size that the platform is given whole.
  whole :
      (yes' : Bool) (k h : ℕ) (nick : Text) (m : UnorderedMap ClientConnection)
      → length nick + 20 < 2 ^ 32
      → (if yes' then heard k h nick m else []) ≡ (
          if yes'
          then (if h == k
              then ((greeting nick).packet, length (greeting nick).packet, p.send_reliable) ∷ []
              else if is_recipient none h (lookup h m)
              then ((notification nick).packet, length (notification nick).packet, p.send_reliable)
                ∷ []
              else [])
          else [])
  unfolding to_uint32
  whole yes' k h nick m room =
      let hello = greeting-whole nick room in
      let joined = notification-whole nick room in rw (hello, joined) refl

  -- On a well-formed server with a poll group, a connection that asks to be let in and is not
  -- registered is answered, and the callback returns. If the platform accepts it and puts it into the
  -- poll group, it is registered as connected, with its nick and its group; it is sent the bytes of
  -- "Hello NICK!", and each other connected client the bytes of "NICK joined the server!", once, with
  -- the size of that text and reliably, and nobody is sent anything else. If not, it is not registered,
  -- and nobody is sent anything. Every other entry is as before.
  pub on_connecting-admits :
      (c : ConnectionStatusChange) (group h j : ℕ) (w : World Server Env)
      → IsWellFormed w.object
      → lookup c.connection w.object.connections ≡ none
      → w.object.poll_group ≡ some group
      → let (r, w') = on_connecting p rand c w in
        let k = c.connection in
        let nick = nick_of (rand w.env).0 in
        let hello = codes "Hello " ++ nick ++ codes "!" in
        let joined = nick ++ codes " joined the server!" in
        let let_in = is_admitted k group w.env in
        (r ≡ ok tt)
        × (lookup j w'.object.connections ≡ (
            if j == k
            then (if let_in then some (admitted p rand k group nick) else none)
            else lookup j w.object.connections))
        × (sent_to h w'.trace
            ≡ sent_to h w.trace
              ++ (if let_in
                  then (if h == k
                      then (hello, length hello, p.send_reliable) ∷ []
                      else if is_recipient none h (lookup h w.object.connections)
                      then (joined, length joined, p.send_reliable) ∷ []
                      else [])
                  else []))
  on_connecting-admits c group h j w f e g =
      let k = c.connection in
      let v = record w { env = (rand w.env).1 } in
      let nick = nick_of (rand w.env).0 in
      let let_in = is_admitted k group w.env in
      let (entry, sent) =
        Seen-after_acceptance k group h j nick v (p.accept_connection k (rand w.env).1) f e in
      let exactly =
        whole let_in k h nick w.object.connections (length-nick_of p rand (rand w.env).0) in
      rw (on_connecting-eq p rand c group w e g)
        (refl, entry, sent ∙ ap (λ l. sent_to h w.trace ++ l) exactly)
