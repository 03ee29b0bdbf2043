-- ===== src/Status.antt =====
-- Include/Common/ConnectionState.h, ConnectionStatus.h and ConnectionStatusChange.h.
use Prim.Native.Nat.{ℕ}

-- The state that a `ClientConnection` keeps for itself.
pub data ConnectionState : Type 0 where
  none connecting connected closed : ConnectionState

-- The status that the application is told of.
pub data ConnectionStatus : Type 0 where
  none connecting finding_route connected closed_by_peer problem_detected_locally : ConnectionStatus

pub record ConnectionStatusChange : Type 0 where
  pub connection : ℕ
  pub old_status : ConnectionStatus
  pub current_status : ConnectionStatus
