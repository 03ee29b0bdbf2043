-- ===== src/Exchange/Broadcasts.antt =====
-- Server.cpp's broadcast of a packet, and then Client.cpp's `processReceivedPackets` on the other side of
-- one of the server's handles.
use chaos_in_multiplayer.Base.{
  ℕ, ◌≡◌, ◌≢◌, Option, List, [], ◌∷◌, ◌++◌, map, if◌then◌else◌, count_if,
}
use chaos_in_multiplayer.Platform.{Platform, Message}
use chaos_in_multiplayer.Packet.{Packet, size}
use chaos_in_multiplayer.UnorderedMap.{UnorderedMap, lookup}
use chaos_in_multiplayer.ClientConnection.{ClientConnection}
use chaos_in_multiplayer.Server.{Server}
use chaos_in_multiplayer.Server.Sending.Broadcast.{send_event, sends_to, is_recipient}
use chaos_in_multiplayer.Server.Sending.Broadcast
use chaos_in_multiplayer.Client.{Client}
use chaos_in_multiplayer.Exchange.{arriving, IsSmall}

-- The connection to the client behind the server's handle `j`, which knows the server as `k`. `takes` says
-- of a state that it is up and that its send buffer has room for these packets, the first of which is
-- next. A reliable message to `j`, of a size that is allowed, is then put on its way, behind those
-- before it, and a message to another handle changes nothing there. Nothing arrives but by a step of
-- the network.
pub record IsDownlink {Env : Type 0} (p : Platform Env) (j k : ℕ)
    (takes : List Packet → Env → Type 0) (transit inbox : Env → List Message) : Type 0 where
  pub carries :
      (q : Packet) (qs : List Packet) (env : Env)
      → IsSmall q
      → takes (q ∷ qs) env
      → let env' = p.send_message j q.packet (size q) p.send_reliable env in
        takes qs env' × (transit env' ≡ transit env ++ arriving k q ∷ []) × (inbox env' ≡ inbox env)
  pub others :
      (h : ℕ) (q : Packet) (qs : List Packet) (env : Env)
      → j ≢ h
      → takes qs env
      → let env' = p.send_message h q.packet (size q) p.send_reliable env in
        takes qs env' × (transit env' ≡ transit env) × (inbox env' ≡ inbox env)

module _ {Env : Type 0} (p : Platform Env) (j k : ℕ) (takes : List Packet → Env → Type 0)
    (transit inbox : Env → List Message) (link : IsDownlink p j k takes transit inbox) where
  -- How many of the sends are to the handle.
  abbrev copies : Packet → UnorderedMap ClientConnection → ℕ
  copies q es = count_if (sends_to j) (map (send_event q p.send_reliable) es)

-- The packets that a broadcast is to bring to the handle.
abbrev pub expected :
    ℕ → Packet → Option ClientConnection → UnorderedMap ClientConnection → List Packet
expected j q except es = if is_recipient except j (lookup j es) then q ∷ [] else []
