-- ===== src/ClientConnection.antt =====
-- Include/Server/ClientConnection.h and Source/Server/ClientConnection.cpp. The pointer to the
-- networking interface is not a field: there is one interface, the platform.
pub mod Lifecycle
use chaos_in_multiplayer.Base.{
  ℕ, ◌≡◌, Bool, true, false, not, ◌||◌, Option, none, some, Text, [], ◌==◌, if◌then◌else◌,
}
use chaos_in_multiplayer.Status.{ConnectionState}
use chaos_in_multiplayer.Platform.{Platform, Event}
use chaos_in_multiplayer.Program.{
  assertion, undefined, Outcome, ok, fault, Action, ◌>>=◌, ◌>>◌, pure, gets, call, perform, modify,
  require,
}

pub record ClientConnection : Type 0 where
  pub net_connection : ℕ
  -- `none`: no constructor sets this member, so it is indeterminate until `set_poll_group`.
  pub poll_group : Option ℕ
  pub connection_alias : Text
  pub connection_state : ConnectionState

unfoldable pub of_handle : ℕ → ClientConnection
of_handle h = record {
  net_connection = h;
  poll_group = none;
  connection_alias = [];
  connection_state = ConnectionState.connecting;
}

abbrev pub connecting : ClientConnection → Bool
connecting c = elim c.connection_state [ ConnectionState.connecting ↦ true | _ ↦ false ]

abbrev pub connected : ClientConnection → Bool
connected c = elim c.connection_state [ ConnectionState.connected ↦ true | _ ↦ false ]

abbrev pub closed : ClientConnection → Bool
closed c = elim c.connection_state [ ConnectionState.closed ↦ true | _ ↦ false ]

abbrev is_none : ClientConnection → Bool
is_none c = elim c.connection_state [ ConnectionState.none ↦ true | _ ↦ false ]

abbrev pub set_alias : Text → ClientConnection → ClientConnection
set_alias value c = record c { connection_alias = value }

-- `pollGroup()`: reading the member before it is set is undefined.
unfoldable pub get_poll_group : {Env : Type 0} → Action ClientConnection Env ℕ
get_poll_group = do g ← gets (λ c. c.poll_group); require undefined g

module _ {Env : Type 0} (p : Platform Env) where
  abbrev pub valid : ClientConnection → Bool
  valid c = not (c.net_connection == p.invalid_connection)

  unfoldable pub invalidate : ClientConnection → ClientConnection
  invalidate c = record c { net_connection = p.invalid_connection }

  -- The new object, and what is left of `other`, whose alias has been moved from.
  unfoldable pub move_construct : ClientConnection → ClientConnection × ClientConnection
  unfolding invalidate
  move_construct other =
      (record other { poll_group = none }, invalidate (record other { connection_alias = [] }))

  -- `this` and `other` afterwards. `same`: the two are one object.
  unfoldable pub move_assign :
      Bool → ClientConnection → ClientConnection → ClientConnection × ClientConnection
  unfolding invalidate
  move_assign same this other = if same then (this, other) else (
    record this {
      net_connection = other.net_connection;
      connection_alias = other.connection_alias;
      connection_state = other.connection_state;
    },
    invalidate (record other { connection_alias = [] }),
  )

  -- The destructor.
  unfoldable pub destroy : ClientConnection → Outcome Unit
  destroy c = if not (valid c) || (closed c || is_none c) then ok tt else fault assertion

  unfoldable pub accept : Action ClientConnection Env Bool
  accept = do
    h ← gets (λ c. c.net_connection)
    result ← call (Event.accept_connection h) (p.accept_connection h)
    if result == p.result_ok
        then modify (λ c. record c { connection_state = ConnectionState.connected }) >> pure true
        else pure false

  unfoldable pub set_poll_group : ℕ → Action ClientConnection Env Bool
  set_poll_group group = do
    h ← gets (λ c. c.net_connection)
    moved ← call (Event.set_connection_poll_group h group) (p.set_connection_poll_group h group)
    if moved then modify (λ c. record c { poll_group = some group }) >> pure true else pure false

  unfoldable pub close : Action ClientConnection Env Unit
  close = do
    h ← gets (λ c. c.net_connection)
    perform (Event.close_connection h 0 false) (p.close_connection h 0 false)
    modify (λ c. record c { connection_state = ConnectionState.closed })
