-- ===== src/Reporting.antt =====
-- What Server.cpp and Client.cpp have in common in how they report changes of status: the table, and
-- the callback that the platform calls for each queued change.
use chaos_in_multiplayer.Base.{
  ℕ, ◌≡◌, refl, sym, ap, ◌∙◌, some, List, [], ◌∷◌, ◌++◌, append-nil, append_assoc, subst,
}
use chaos_in_multiplayer.Status.{ConnectionStatus, ConnectionStatusChange}
use chaos_in_multiplayer.Platform.{Event, StatusInfo}
use chaos_in_multiplayer.Program.{Outcome, ok, World, Action, for_each}
use chaos_in_multiplayer.UnorderedMap.{UnorderedMap, lookup}

-- The reports among some events.
abbrev pub reports : List Event → List ConnectionStatusChange
reports [] = []
reports (Event.call_status_callback f c ∷ es) = c ∷ reports es
reports (e ∷ es) = reports es

pub reports-append : (xs ys : List Event) → reports (xs ++ ys) ≡ reports xs ++ reports ys
reports-append [] ys = refl
reports-append (Event.call_status_callback f c ∷ xs) ys = ap (◌∷◌ c) (reports-append xs ys)
reports-append (e ∷ xs) ys = reports-append xs ys

-- A change and its report: the same connection, and the statuses that the table has for the states.
pub record Reports (table : UnorderedMap ConnectionStatus) (i : StatusInfo)
    (c : ConnectionStatusChange) : Type 0 where
  pub connection : c.connection ≡ i.conn
  pub old : lookup i.old_state table ≡ some c.old_status
  pub current : lookup i.state table ≡ some c.current_status

abbrev pub AllReport :
    UnorderedMap ConnectionStatus → List StatusInfo → List ConnectionStatusChange → Type 0
AllReport table [] [] = Unit
AllReport table [] (c ∷ cs) = ⊥
AllReport table (i ∷ is') [] = ⊥
AllReport table (i ∷ is') (c ∷ cs) = Reports table i c × AllReport table is' cs

-- A callable that returns and, whatever else it does, keeps the object ready to report, and makes no
-- report.
pub record IsReporter {S Env : Type 0} (Reporting : S → Type 0)
    (code : ConnectionStatusChange → Action S Env Unit) : Type 0 where
  pub returns :
      (c : ConnectionStatusChange) (w : World S Env) → Reporting w.object → (code c w).0 ≡ ok tt
  pub keeps :
      (c : ConnectionStatusChange) (w : World S Env)
      → Reporting w.object
      → Reporting (code c w).1.object × (reports (code c w).1.trace ≡ reports w.trace)

module _ {S Env : Type 0} (Reporting : S → Type 0) where
  -- A call returned, and reported these.
  abbrev pub Reported :
      World S Env → List ConnectionStatusChange → Outcome Unit × World S Env → Type 0
  Reported w cs v =
      (v.0 ≡ ok tt) × Reporting v.1.object × (reports v.1.trace ≡ reports w.trace ++ cs)

module _ {S Env : Type 0} (Reporting : S → Type 0) (f : ℕ)
    (code : ConnectionStatusChange → Action S Env Unit) (reporter : IsReporter Reporting code)
    (table : UnorderedMap ConnectionStatus) (callback : StatusInfo → Action S Env Unit) where
  -- When the callable is called.
  abbrev pub at_report : ConnectionStatusChange → World S Env → World S Env
  at_report c w = record w { trace = w.trace ++ Event.call_status_callback f c ∷ [] }

  module _
      (calls : (i : StatusInfo) (c : ConnectionStatusChange) (w : World S Env)
        → Reporting w.object
        → Reports table i c
        → callback i w ≡ code c (at_report c w)) where
    callback-Reports :
        (i : StatusInfo) (c : ConnectionStatusChange) (w : World S Env)
        → Reporting w.object
        → Reports table i c
        → Reported Reporting w (c ∷ []) (callback i w)
    callback-Reports i c w s r =
        let (kept, same) = reporter.keeps c (at_report c w) s in
        subst (Reported Reporting w (c ∷ [])) (sym (calls i c w s r)) (
          reporter.returns c (at_report c w) s,
          kept,
          same ∙ reports-append w.trace (Event.call_status_callback f c ∷ []),
        )

    pub for_each-reports :
        (is' : List StatusInfo) (cs : List ConnectionStatusChange) (w : World S Env)
        → Reporting w.object
        → AllReport table is' cs
        → Reported Reporting w cs (for_each is' callback w)
    unfolding for_each
    for_each-reports [] [] w s r = (refl, s, sym (append-nil (reports w.trace)))
    for_each-reports [] (c ∷ cs) w s r = absurd r
    for_each-reports (i ∷ is') [] w s r = absurd r
    for_each-reports (i ∷ is') (c ∷ cs) w s r =
        let (done, s', e) = callback-Reports i c w s r.0 in
        let w' = (callback i w).1 in
        let (done', s'', e') = for_each-reports is' cs w' s' r.1 in
        rw done
          (done', s'', e' ∙ ap (λ xs. xs ++ cs) e ∙ append_assoc (reports w.trace) (c ∷ []) cs)

    -- The call that makes the platform run the callbacks, and then they.
    pub run_callbacks-reports :
        (is' : List StatusInfo) (cs : List ConnectionStatusChange) (s : S) (env : Env)
        (w : World S Env)
        → Reporting s
        → AllReport table is' cs
        → Reported Reporting w cs (
            for_each is' callback
              (record { object = s; env = env; trace = w.trace ++ Event.run_callbacks ∷ [] }))
    run_callbacks-reports is' cs s env w reporting r =
        let v : World S Env = record {
          object = s;
          env = env;
          trace = w.trace ++ Event.run_callbacks ∷ [];
        } in
        let (done, s', e) = for_each-reports is' cs v reporting r in
        (
          done,
          s',
          e
              ∙ ap (λ xs. xs ++ cs)
                  (reports-append w.trace (Event.run_callbacks ∷ [])
                    ∙ append-nil (reports w.trace)),
        )
