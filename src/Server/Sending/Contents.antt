-- ===== src/Server/Sending/Contents.antt =====
-- What a broadcast sends to one handle: which bytes, how many of them, and with which flags.
use chaos_in_multiplayer.Base.{
  ℕ, ◌≡◌, refl, ap, List, [], ◌∷◌, ◌++◌, append-nil, ◌∙◌, Option, arith, ◌==◌, if◌then◌else◌, map,
  All,
}
use chaos_in_multiplayer.Platform.{Event}
use chaos_in_multiplayer.Packet.{Packet, bytes, size}
use chaos_in_multiplayer.UnorderedMap.{UnorderedMap, lookup, IsDistinct}
use chaos_in_multiplayer.ClientConnection.{ClientConnection}
use chaos_in_multiplayer.Server.Clients.Registry.{IsRegistered}
use chaos_in_multiplayer.Server.Sending.{to_uint32}
use chaos_in_multiplayer.Server.Sending.Broadcast.{recipients, send_event, is_recipient}

-- The bytes that were pointed to, how many were to be sent, and the flags.
abbrev pub Content : Type 0
Content = List ℕ × ℕ × ℕ

abbrev pub content : Packet → ℕ → Content
content packet t = (bytes packet, to_uint32 (size packet), t)

-- What was sent to the handle, in order.
abbrev pub sent_to : ℕ → List Event → List Content
sent_to h [] = []
sent_to h (Event.send_message k bs n t ∷ es) =
    if h == k then (bs, n, t) ∷ sent_to h es else sent_to h es
sent_to h (e ∷ es) = sent_to h es

pub sent_to-append :
    (h : ℕ) (xs ys : List Event) → sent_to h (xs ++ ys) ≡ sent_to h xs ++ sent_to h ys
sent_to-append h [] ys = refl
sent_to-append h (Event.send_message k bs n t ∷ xs) ys = ground (arith, sent_to-append h xs ys)
sent_to-append h (e ∷ xs) ys = sent_to-append h xs ys

-- An event that sends nothing adds nothing.
pub sent_to-silent :
    (h : ℕ) (trace : List Event) (e : Event)
    → sent_to h (e ∷ []) ≡ []
    → sent_to h (trace ++ e ∷ []) ≡ sent_to h trace
sent_to-silent h trace e s =
    sent_to-append h trace (e ∷ [])
    ∙ ap (λ l. sent_to h trace ++ l) s
    ∙ append-nil (sent_to h trace)

pub sent_to-recipients :
    (packet : Packet) (t h : ℕ) (except : Option ClientConnection)
    (es : UnorderedMap ClientConnection)
    → IsDistinct es
    → All IsRegistered es
    → sent_to h (map (send_event packet t) (recipients except es))
      ≡ (if is_recipient except h (lookup h es) then content packet t ∷ [] else [])
unfolding lookup
sent_to-recipients packet t h except [] d r = ground arith
sent_to-recipients packet t h except ((k, c) ∷ es) d r =
    ground (arith, sent_to-recipients packet t h except es d.1 r.1)
