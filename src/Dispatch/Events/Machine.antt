-- ===== src/Dispatch/Events/Machine.antt =====
-- src/dispatch.rs: what of a shard's messages is relayed to clients, as an abstract machine that
-- knows no state but whether the shard is ready.
use discord_gateway_proxy.Deserializer.{from_json}
use discord_gateway_proxy.Prelude.{
  true, false, none, some, [], ◌∷◌, str_eq, nat_eq, ℕ, List, Str, Option, not, Bool, ◌&&◌,
  if◌then◌else◌, str_beq, codes, ◌>>=◌, nat_beq,
}
use discord_gateway_proxy.Dispatch.Events.{
  text, close, failed, ended, continues, returns, panics, Flow, Parsed, Readers, ShardMessage,
}

-- What the abstract machine gives: how it goes on, whether it is ready, and what it relays.
abbrev pub Step : Type 0
Step = Flow × Bool × List Str

abbrev pub is_invalid : Parsed → Bool
is_invalid (Parsed.invalidate_session can_resume) = true
is_invalid (Parsed.dispatch update) = false
is_invalid Parsed.other_event = false
is_invalid Parsed.skipped = false

module _ (readers : Readers) where
  -- READY and RESUMED make it ready; only then is an event relayed, and neither of these ever is.
  unfoldable pub machine_event : Bool → Str → Option Str → ℕ → Step
  machine_event ready payload none op = (continues, ready, [])
  machine_event ready payload (some event_name) op =
      if str_beq event_name (codes "READY")
      then (elim (readers.read_ready payload) [
        | none ↦ (panics, ready, [])
        | some d ↦ (continues, true, [])
      ])
      else if str_beq event_name (codes "RESUMED")
      then (continues, true, [])
      else if nat_beq op 0 && ready
      then (continues, ready, payload ∷ [])
      else (continues, ready, [])

  -- The end of the session makes it not ready.
  abbrev pub machine_parsed : Str → Step → Step
  machine_parsed payload (continues, ready, relayed) =
      (continues, ready && not (is_invalid (readers.parse payload)), relayed)
  machine_parsed payload (returns, ready, relayed) = (returns, ready, relayed)
  machine_parsed payload (panics, ready, relayed) = (panics, ready, relayed)

  unfoldable pub machine_turn : Bool → Bool → ShardMessage → Step
  unfolding machine_event
  machine_turn shutdown ready (text payload) = elim (from_json payload) [
    | none ↦ (continues, ready, [])
    | some event ↦
        machine_parsed payload
          (machine_event ready payload (event.event_type >>= λ t. some t.name) event.op.op)
  ]
  machine_turn shutdown ready close =
      if shutdown then (returns, ready, []) else (continues, ready, [])
  machine_turn shutdown ready failed = (continues, ready, [])
  machine_turn shutdown ready ended = (returns, ready, [])
