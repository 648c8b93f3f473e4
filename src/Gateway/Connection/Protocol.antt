-- ===== src/Gateway/Connection/Protocol.antt =====
-- src/server.rs: the loop of `handle_client` refines the abstract machine of Phases.
use discord_gateway_proxy.Gateway.Connection.Phases.{Phase, Stands, Move}
use discord_gateway_proxy.Gateway.Connection.Moves.{turn-Refines}
use discord_gateway_proxy.Gateway.Connection.Turns.{turn}
use discord_gateway_proxy.State.{Inner}
use discord_gateway_proxy.Config.{Config}
use discord_gateway_proxy.Prelude.{◌≡◌, ◌≢◌, List, refl, ◌∷◌, []}
use discord_gateway_proxy.Gateway.Connection.{
  Connection, Messages, Moment, Inner, continues, Wakeup, breaks, panics, waits, Flow,
}

module _ (messages : Messages) (config : Config) where
  -- A turn that a connection takes: when, on what, and the shared state that it meets, whatever other
  -- tasks have made of it.
  abbrev pub Turn : Type 0
  Turn = Moment × Wakeup × Inner

  -- The loop, up to and with the turn that does not go on.
  unfoldable pub serve : Connection → List Turn → Connection
  unfolding turn
  serve connection [] = connection
  serve connection ((moment, wakeup, inner) ∷ turns) =
      let result = turn messages config moment wakeup connection inner in
      let rest = serve result.connection turns in
      elim result.flow [
        | continues ↦ rest
        | breaks ↦ result.connection
        | panics ↦ result.connection
        | waits ↦ result.connection
      ]

  -- A run of the abstract machine, each move at the moment of its turn, up to the turns that are left.
  pub data Run : List Turn → Phase → List Turn → Phase → Type 0 where
    over : (turns : List Turn) (phase : Phase) → Run turns phase turns phase
    moves :
        {moment : Moment} {wakeup : Wakeup} {inner : Inner} {turns left : List Turn}
        {phase middle last : Phase}
        → Move messages config moment phase middle
        → Run turns middle left last
        → Run ((moment, wakeup, inner) ∷ turns) phase left last

  -- How the loop ends in a phase: with no turn left, or by the first turn that is left, which meets a
  -- connection in that phase and does not go on.
  abbrev pub Ends : List Turn → Phase → Connection → Type 0
  Ends [] last connection = Stands last connection
  Ends ((moment, wakeup, inner) ∷ turns) last connection =
      (before : Connection) × Stands last before
      × ((turn messages config moment wakeup before inner).flow ≢ continues)
      × (connection ≡ (turn messages config moment wakeup before inner).connection)

  module _ (turns : List Turn) (phase : Phase) where
    -- Where a run of the machine has brought a connection.
    abbrev Followed : Connection → Type 0
    Followed connection =
        (left : List Turn) × (last : Phase) × Run turns phase left last × Ends left last connection

    flow-Followed :
        (flow : Flow) {stopped went : Connection}
        → (flow ≢ continues → Followed stopped)
        → (flow ≡ continues → Followed went)
        → Followed
            (elim flow [ continues ↦ went | breaks ↦ stopped | panics ↦ stopped | waits ↦ stopped ])
    flow-Followed continues s w = w refl
    flow-Followed breaks s w = s (λ e. cc e)
    flow-Followed panics s w = s (λ e. cc e)
    flow-Followed waits s w = s (λ e. cc e)

  -- The loop of a connection refines the abstract machine: a run of the machine follows its turns,
  -- whatever messages arrive and whatever other tasks do to the shared state, to the end of the turns
  -- or to the turn that does not go on. The connection stands in the phase of the machine at the end
  -- of the turns, or before that last turn, whose result is then what the loop leaves.
  pub serve-refines :
      (turns : List Turn) (phase : Phase) (connection : Connection)
      → Stands phase connection
      → (left : List Turn) × (last : Phase) × Run turns phase left last
        × Ends left last (serve connection turns)
  unfolding serve
  serve-refines [] phase connection h = ([], phase, over [] phase, h)
  serve-refines ((moment, wakeup, inner) ∷ turns) phase connection h =
      let result = turn messages config moment wakeup connection inner in
      let all = (moment, wakeup, inner) ∷ turns in
      flow-Followed all phase result.flow
        (λ stops. (all, phase, over all phase, (connection, h, stops, refl)))
        (λ go.
          let (middle, stands, move) =
            turn-Refines messages config moment connection inner wakeup phase h go in
          let (left, last, run, ends) = serve-refines turns middle result.connection stands in
          (left, last, moves move run, ends))
