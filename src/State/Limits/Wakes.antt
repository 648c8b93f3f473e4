-- ===== src/State/Limits/Wakes.antt =====
-- The wake cooldown of src/state.rs, and what pruning keeps.
use discord_gateway_proxy.Map.{get-insert, Map, Distinct, get-retain}
use discord_gateway_proxy.Prelude.{
  nat_eq, str_eq, arith, ℕ, Str, ◌≡◌, true, false, not, ltb, ◌-◌, str_beq, Bool, List, str_beq_iff,
  Option, some, contains, if◌then◌else◌, refl, none, ◌∙◌,
}
use discord_gateway_proxy.Map
use discord_gateway_proxy.State.{Inner}
use discord_gateway_proxy.State.Limits.{should_wake_client, prune_stale_client_state}

-- A client that was woken at `now` is woken again at `later` exactly if the cooldown has passed
-- since then, however many attempts were refused between, and no other client is concerned.
pub should_wake_client_again :
    (now later cooldown : ℕ) (client_id other : Str) (s s' : Inner)
    → should_wake_client now cooldown client_id s ≡ (true, s')
    → ((should_wake_client later cooldown client_id s').0 ≡ not (ltb (later - now) cooldown))
      × (str_beq client_id other ≡ false
          → (should_wake_client later cooldown other s').0
            ≡ (should_wake_client later cooldown other s).0)
unfolding should_wake_client
should_wake_client_again now later cooldown client_id other s s' h = ground (
  arith,
  get-insert s.last_wake_attempts client_id client_id now,
  get-insert s.last_wake_attempts client_id other now,
  str_beq_iff client_id client_id,
)

-- A refused attempt changes nothing.
pub should_wake_client_refused :
    (now cooldown : ℕ) (client_id : Str) (s s' : Inner)
    → should_wake_client now cooldown client_id s ≡ (false, s')
    → s' ≡ s
unfolding should_wake_client
should_wake_client_refused now cooldown client_id s s' h = ground arith

-- What is kept for a client, if it is still known.
abbrev pub kept {ℓ} : {A : Type ℓ} → Bool → Option A → Option A
kept known none = none
kept known (some a) = if known then some a else none

retained {ℓ} :
    {A : Type ℓ} (valid : List Str) (m : Map Str A) (client_id : Str)
    → Distinct m
    → Map.get (Map.retain (λ c _. contains valid c) m) client_id
      ≡ kept (contains valid client_id) (Map.get m client_id)
retained {A} valid m client_id d =
    get-retain (λ c _. contains valid c) m client_id d ∙ same (Map.get m client_id)
  where
    same :
        (o : Option A)
        → (elim o [ none ↦ none | some v ↦ if contains valid client_id then some v else none ])
          ≡ kept (contains valid client_id) o
    same none = refl
    same (some v) = refl

-- Pruning keeps the buffer, the wake time and the command window of every client that is still
-- known and drops those of every other, and touches no session, connection or voice owner.
pub prune_stale_client_state_lem :
    (valid : List Str) (s : Inner) (client_id : Str)
    → Distinct s.offline_event_buffers
    → Distinct s.last_wake_attempts
    → Distinct s.client_command_windows
    → let t = prune_stale_client_state valid s in
      let known = contains valid client_id in
      (Map.get t.offline_event_buffers client_id
        ≡ kept known (Map.get s.offline_event_buffers client_id))
      × (Map.get t.last_wake_attempts client_id
          ≡ kept known (Map.get s.last_wake_attempts client_id))
      × (Map.get t.client_command_windows client_id
          ≡ kept known (Map.get s.client_command_windows client_id))
      × (t.sessions ≡ s.sessions)
      × (t.active_client_connections ≡ s.active_client_connections)
      × (t.voice_owners ≡ s.voice_owners)
unfolding prune_stale_client_state
prune_stale_client_state_lem valid s client_id b w c = (
  retained valid _ client_id b,
  retained valid _ client_id w,
  retained valid _ client_id c,
  refl,
  refl,
  refl,
)
