-- ===== src/State/Limits.antt =====
-- src/state.rs: the wake cooldown and the rate limit of each client, and the pruning of what is
-- kept for clients that are gone.
pub mod Windows
pub mod Wakes
use discord_gateway_proxy.Prelude.{
  ℕ, ◌+◌, ◌-◌, Bool, true, false, Option, none, some, List, Str, str_eq, leb, ltb, if◌then◌else◌,
  map_or, contains,
}
use discord_gateway_proxy.Map
use discord_gateway_proxy.State.{Inner}

-- `now.duration_since(last) < cooldown`, if there was an attempt.
unfoldable pub too_soon : ℕ → ℕ → Option ℕ → Bool
too_soon now cooldown none = false
too_soon now cooldown (some last) = ltb (now - last) cooldown

unfoldable pub should_wake_client : ℕ → ℕ → Str → Inner → Bool × Inner
unfolding too_soon
should_wake_client now cooldown client_id inner =
    if too_soon now cooldown (Map.get inner.last_wake_attempts client_id) then (false, inner) else (
      true,
      record inner { last_wake_attempts = Map.insert inner.last_wake_attempts client_id now },
    )

-- The window of a client as a command finds it: a new one if there was none or it has passed.
unfoldable pub current_window : ℕ → ℕ → Option (ℕ × ℕ) → ℕ × ℕ
current_window now window none = (now, 0)
current_window now window (some (start, count)) =
    if leb window (now - start) then (now, 0) else (start, count)

unfoldable pub allow_client_command : ℕ → ℕ → ℕ → Str → Inner → Bool × Inner
unfolding current_window
allow_client_command now limit window client_id inner =
    let (start, count) =
      current_window now window (Map.get inner.client_command_windows client_id) in
    if leb limit count
    then (
      false,
      record inner {
        client_command_windows = Map.insert inner.client_command_windows client_id (start, count);
      },
    )
    else (
      true,
      record inner {
        client_command_windows =
            Map.insert inner.client_command_windows client_id (start, count + 1);
      },
    )

unfoldable pub prune_stale_client_state : List Str → Inner → Inner
prune_stale_client_state valid_client_ids inner = record inner {
  offline_event_buffers =
      Map.retain (λ client_id _. contains valid_client_ids client_id) inner.offline_event_buffers;
  last_wake_attempts =
      Map.retain (λ client_id _. contains valid_client_ids client_id) inner.last_wake_attempts;
  client_command_windows =
      Map.retain (λ client_id _. contains valid_client_ids client_id) inner.client_command_windows;
}
