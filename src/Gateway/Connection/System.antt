-- ===== src/Gateway/Connection/System.antt =====
-- src/server.rs: all connections of the proxy at once, on one shared state.
use discord_gateway_proxy.Gateway.Connection.Frames.{SameCounts}
use discord_gateway_proxy.State.Connections.{connections}
use discord_gateway_proxy.Gateway.Connection.Counts.{
  holds, turn-balance, teardown-balance, connections-SameCounts,
}
use discord_gateway_proxy.Config.{Config}
use discord_gateway_proxy.Gateway.Connection.{
  Messages, Connection, new_connection, Moment, Wakeup, continues, breaks,
}
use discord_gateway_proxy.Prelude.{
  List, Str, ℕ, ◌∷◌, ◌++◌, ◌+◌, ◌≡◌, subst, [], arith, sym, refl, ap, ◌∙◌,
}
use discord_gateway_proxy.State.{Inner}
use discord_gateway_proxy.Gateway.Connection.Turns.{turn, teardown}

pub record System : Type 0 where
  pub inner : Inner
  -- The tasks that run `handle_client`.
  pub open_connections : List Connection

-- How often the open connections count for a client.
unfoldable pub total : List Connection → Str → ℕ
total [] client_id = 0
total (connection ∷ rest) client_id =
    holds connection.active_client_id client_id + total rest client_id

total-middle :
    (before after : List Connection) (connection : Connection) (client_id : Str)
    → total (before ++ connection ∷ after) client_id
      ≡ holds connection.active_client_id client_id + total (before ++ after) client_id
unfolding total
total-middle [] after connection client_id = refl
total-middle (first ∷ before) after connection client_id =
    omega (arith, total-middle before after connection client_id)

module _ (messages : Messages) (config : Config) where
  -- One step of the proxy: a connection opens, takes a turn or ends, or another task (the dispatch of
  -- a shard, the REST proxy, a sweep) changes the shared state, but no count of connections.
  pub data Step : System → System → Type 0 where
    opens :
        (s : System) (now : ℕ)
        → Step s (record s { open_connections = new_connection now ∷ s.open_connections })
    turns :
        (s t : System) (before after : List Connection) (connection : Connection) (moment : Moment)
        (wakeup : Wakeup)
        → s.open_connections ≡ before ++ connection ∷ after
        → (turn messages config moment wakeup connection s.inner).flow ≡ continues
        → t ≡ record {
          inner = (turn messages config moment wakeup connection s.inner).inner;
          open_connections =
              before ++ (turn messages config moment wakeup connection s.inner).connection ∷ after;
        }
        → Step s t
    ends :
        (s t : System) (before after : List Connection) (connection : Connection) (moment : Moment)
        (wakeup : Wakeup) (now : ℕ)
        → s.open_connections ≡ before ++ connection ∷ after
        → (turn messages config moment wakeup connection s.inner).flow ≡ breaks
        → t ≡ record {
          inner =
              (teardown now
                (turn messages config moment wakeup connection s.inner).connection
                (turn messages config moment wakeup connection s.inner).inner).1;
          open_connections = before ++ after;
        }
        → Step s t
    elsewhere :
        (s : System) (inner : Inner)
        → SameCounts s.inner inner
        → Step s (record s { inner = inner })

  pub data Reach (start : System) : System → Type 0 where
    here : Reach start start
    next : {s t : System} → Reach start s → Step s t → Reach start t

  -- The counts of the shared state are those of the open connections.
  abbrev pub Balanced : System → Type 0
  Balanced s =
      (client_id : Str) → connections s.inner client_id ≡ total s.open_connections client_id

  Step-Balanced : {s t : System} → Step s t → Balanced s → Balanced t
  unfolding total holds new_connection
  Step-Balanced (opens s now) h client_id = omega (arith, h client_id)
  Step-Balanced (turns s t before after connection moment wakeup o f e) h client_id =
      let result = turn messages config moment wakeup connection s.inner in
      subst (λ (u : System). connections u.inner client_id ≡ total u.open_connections client_id)
        (sym e)
        (omega (
          arith,
          h client_id,
          ap (λ held. total held client_id) o,
          total-middle before after connection client_id,
          total-middle before after result.connection client_id,
          turn-balance messages config moment wakeup connection s.inner client_id,
        ))
  Step-Balanced (ends s t before after connection moment wakeup now o f e) h client_id =
      let result = turn messages config moment wakeup connection s.inner in
      subst (λ (u : System). connections u.inner client_id ≡ total u.open_connections client_id)
        (sym e)
        (omega (
          arith,
          h client_id,
          ap (λ held. total held client_id) o,
          total-middle before after connection client_id,
          teardown-balance now result.connection result.inner client_id,
          turn-balance messages config moment wakeup connection s.inner client_id,
        ))
  Step-Balanced (elsewhere s inner same) h client_id =
      connections-SameCounts s.inner inner client_id same ∙ h client_id

  -- Through any interleaving of connections that open, take turns and end, and of other tasks, the
  -- count of every client is the number of open connections that are authenticated as it, if it was
  -- so at the start.
  pub Reach-Balanced : {s t : System} → Reach s t → Balanced s → Balanced t
  Reach-Balanced here h = h
  Reach-Balanced (next r step) h = Step-Balanced step (Reach-Balanced r h)
