-- ===== src/ClientConnection/Lifecycle.antt =====
-- What becomes of one `ClientConnection`: any history of its methods, its moves, its destructor.
use chaos_in_multiplayer.Base.{
  ℕ, ◌++◌, ◌≡◌, ◌≢◌, ◌↔◌, refl, true, false, List, [], ◌∷◌, Text, arith,
}
use chaos_in_multiplayer.Status.{ConnectionState}
use chaos_in_multiplayer.Platform.{Platform, Event}
use chaos_in_multiplayer.Program.{ok, World}
use chaos_in_multiplayer.ClientConnection.{
  ClientConnection, of_handle, closed, set_alias, move_construct, move_assign, destroy, accept,
  set_poll_group, close,
}

-- A call of one of the methods that change the object.
pub data Call : Type 0 where
  accepts closes : Call
  sets_poll_group : ℕ → Call
  sets_alias : Text → Call

-- The object still names its handle, and its state is one of the three that the code assigns.
pub record IsLive (h : ℕ) (c : ClientConnection) : Type 0 where
  pub named : c.net_connection ≡ h
  pub stated : c.connection_state ≢ ConnectionState.none

module _ {Env : Type 0} (p : Platform Env) where
  pub perform_call : Call → World ClientConnection Env → World ClientConnection Env
  perform_call accepts w = (accept p w).1
  perform_call closes w = (close p w).1
  perform_call (sets_poll_group g) w = (set_poll_group p g w).1
  perform_call (sets_alias t) w = record w { object = set_alias t w.object }

  pub run_history : List Call → World ClientConnection Env → World ClientConnection Env
  run_history [] w = w
  run_history (c ∷ cs) w = run_history cs (perform_call c w)

  perform_call-IsLive :
      (h : ℕ) (c : Call) (w : World ClientConnection Env)
      → IsLive h w.object
      → IsLive h (perform_call c w).object
  unfolding perform_call accept close set_poll_group
  perform_call-IsLive h accepts w l = ground arith
  perform_call-IsLive h closes w l = ground arith
  perform_call-IsLive h (sets_poll_group g) w l = ground arith
  perform_call-IsLive h (sets_alias t) w l = ground arith

  pub run_history-IsLive :
      (h : ℕ) (cs : List Call) (w : World ClientConnection Env)
      → IsLive h w.object
      → IsLive h (run_history cs w).object
  unfolding run_history
  run_history-IsLive h [] w l = l
  run_history-IsLive h (c ∷ cs) w l =
      run_history-IsLive h cs (perform_call c w) (perform_call-IsLive h c w l)

  destroy-IsLive :
      (h : ℕ) (c : ClientConnection)
      → IsLive h c
      → h ≢ p.invalid_connection
      → (destroy p c ≡ ok tt) ↔ (closed c ≡ true)
  unfolding destroy
  destroy-IsLive h c l v = (λ e. ground arith, λ e. ground arith)

  -- A connection that was made for a handle other than the invalid one can be destroyed, after any
  -- history of calls of its methods, exactly when its state is `closed`; it still has its handle.
  pub destroy-run_history :
      (h : ℕ) (cs : List Call) (w : World ClientConnection Env)
      → w.object ≡ of_handle h
      → h ≢ p.invalid_connection
      → let c = (run_history cs w).object in
        (c.net_connection ≡ h) × ((destroy p c ≡ ok tt) ↔ (closed c ≡ true))
  unfolding of_handle
  destroy-run_history h cs w e v =
      let l = run_history-IsLive h cs w (ground arith) in (l.named, destroy-IsLive h _ l v)

  -- From any state `close` returns, calls `CloseConnection` once, for the object's own handle, with
  -- reason 0 and without lingering, and leaves an object whose destructor does not assert; the
  -- handle, the alias and the poll group stay.
  pub close-destroy :
      (w : World ClientConnection Env)
      → let (r, w') = close p w in
        (r ≡ ok tt)
        × (destroy p w'.object ≡ ok tt)
        × (w'.trace ≡ w.trace ++ Event.close_connection w.object.net_connection 0 false ∷ [])
        × (w'.object ≡ record w.object { connection_state = ConnectionState.closed })
  unfolding close destroy
  close-destroy w = (refl, ground arith, refl, refl)

  -- A move hands the handle, the alias and the state on; the object that was moved from can be
  -- destroyed in any state, and the new one exactly when the old one could before.
  pub move_construct-destroy :
      (other : ClientConnection)
      → let (this, left) = move_construct p other in
        (this.net_connection ≡ other.net_connection)
        × (this.connection_alias ≡ other.connection_alias)
        × (this.connection_state ≡ other.connection_state)
        × (destroy p left ≡ ok tt)
        × (destroy p this ≡ destroy p other)
  unfolding move_construct destroy
  move_construct-destroy other = (refl, refl, refl, ground arith, refl)

  -- Assigning to another object, where the two have different handles and the target's is valid,
  -- overwrites that handle: neither object holds it afterwards, though the assignment closes no
  -- connection, and the object that was assigned from can be destroyed.
  pub move_assign_drops :
      (this other : ClientConnection)
      → this.net_connection ≢ other.net_connection
      → this.net_connection ≢ p.invalid_connection
      → let (this', other') = move_assign p false this other in
        (this'.net_connection ≢ this.net_connection)
        × (other'.net_connection ≢ this.net_connection)
        × (destroy p other' ≡ ok tt)
  unfolding move_assign destroy
  move_assign_drops this other n v = ground arith
