-- ===== src/Wake/Polls.antt =====
-- src/wake.rs: which clients a poll for scheduled wakes wakes.
use discord_gateway_proxy.Map
use discord_gateway_proxy.Map.{Map}
use discord_gateway_proxy.Config.{ClientConfig}
use discord_gateway_proxy.Dispatch.{WakeTarget}
use discord_gateway_proxy.State.{Inner, second}
use discord_gateway_proxy.State.Connections.{is_client_connected, connections}
use discord_gateway_proxy.State.Limits.{too_soon, should_wake_client}
use discord_gateway_proxy.Wake.{Visit, scheduled_wakes, scheduled_wake, is_due}
use mathlib.Core.Option.{some-injective}
use discord_gateway_proxy.Prelude.{
  nat_eq, str_eq, arith, ℕ, Str, List, [], ◌∷◌, ◌++◌, none, some, true, false, Option, ◌≡◌, ◌≤◌,
  ◌+◌, ◌*◌, ◌⊎◌, inl, inr, refl, Bool-cases, Option-cases, sym, ◌∙◌,
}

-- Why a client that is met so is woken at an address: its wake is at most the lead away, it has no
-- connection, and it was not tried in the ten seconds before.
pub record Due (visit : Visit) (client_id : Str) (client : ClientConfig) (inner : Inner) (url : Str)
    : Type 0 where
  pub at : ℕ
  pub scheduled : client.next_wake_at ≡ some at
  pub lead : at ≤ visit.now + 30
  pub away : connections inner client_id ≡ 0
  pub cooled :
      (last : ℕ)
      → Map.get inner.last_wake_attempts client_id ≡ some last
      → last + 10 * second ≤ visit.clock
  pub reachable : client.reachable_url ≡ some url

-- An attempt is remembered.
abbrev pub tried : Visit → Str → Inner → Inner
tried visit client_id inner = record inner {
  last_wake_attempts = Map.insert inner.last_wake_attempts client_id visit.clock;
}

abbrev pub target_of : Str → ClientConfig → Str → WakeTarget
target_of client_id client url = (client_id, url, client_id ++ b':' ∷ client.secret)

-- What a poll makes of the clients that it meets one after the other.
pub data Polled : List (Visit × Str × ClientConfig) → Inner → List WakeTarget → Type 0 where
  over : (inner : Inner) → Polled [] inner []
  woken :
      {visit : Visit} {client_id : Str} {client : ClientConfig}
      {clients : List (Visit × Str × ClientConfig)} {inner : Inner} {targets : List WakeTarget}
      (url : Str)
      → Due visit client_id client (visit.meanwhile inner) url
      → Polled clients (tried visit client_id (visit.meanwhile inner)) targets
      → Polled
          ((visit, client_id, client) ∷ clients)
          inner
          (target_of client_id client url ∷ targets)
  passed :
      {visit : Visit} {client_id : Str} {client : ClientConfig}
      {clients : List (Visit × Str × ClientConfig)} {inner : Inner} {targets : List WakeTarget}
      (after : Inner)
      → ((url : Str) → ¬ Due visit client_id client (visit.meanwhile inner) url)
      → (after ≡ visit.meanwhile inner) ⊎ (after ≡ tried visit client_id (visit.meanwhile inner))
      → Polled clients after targets
      → Polled ((visit, client_id, client) ∷ clients) inner targets

-- One client of a poll.
abbrev Verdict : Visit → Str → ClientConfig → Inner → Inner × Option WakeTarget → Type 0
Verdict visit client_id client inner result =
    ((url : Str) × Due visit client_id client inner url
      × (result ≡ (tried visit client_id inner, some (target_of client_id client url))))
    ⊎ ((after : Inner) × ((url : Str) → ¬ Due visit client_id client inner url)
        × ((after ≡ inner) ⊎ (after ≡ tried visit client_id inner))
        × (result ≡ (after, none)))

cooled_down :
    (now : ℕ) (attempt : Option ℕ)
    → too_soon now (10 * second) attempt ≡ false
    → (last : ℕ) → attempt ≡ some last
    → last + 10 * second ≤ now
unfolding too_soon
cooled_down now none h last e = cc e
cooled_down now (some tried_at) h last e = ground (arith, h, e)

not_cooled :
    (now : ℕ) (attempt : Option ℕ)
    → too_soon now (10 * second) attempt ≡ true
    → ¬ ((last : ℕ) → attempt ≡ some last → last + 10 * second ≤ now)
unfolding too_soon
not_cooled now none h cooled = cc h
not_cooled now (some last) h cooled =
    let passed_by = cooled last refl in ground (arith, h, passed_by)

module _ (visit : Visit) (client_id : Str) (client : ClientConfig) (inner : Inner) where
  abbrev attempted : Option ℕ
  attempted = Map.get inner.last_wake_attempts client_id

  abbrev result : Inner × Option WakeTarget
  result = scheduled_wake visit.now visit.clock client_id client inner

  attempted-Verdict :
      (at : ℕ)
      → client.next_wake_at ≡ some at
      → is_due visit.now at ≡ true
      → is_client_connected inner client_id ≡ false
      → too_soon visit.clock (10 * second) attempted ≡ false
      → Verdict visit client_id client inner result
  unfolding scheduled_wake should_wake_client is_due is_client_connected
  attempted-Verdict at scheduled due away cool = elim (Option-cases client.reachable_url) [
    | inl nowhere ↦ inr (
      tried visit client_id inner,
      λ url d. cc (nowhere, d.reachable),
      inr refl,
      rw (scheduled, due, away, cool, nowhere) refl,
    )
    | inr (url, e) ↦ inl (
      url,
      record {
        at = at;
        scheduled = scheduled;
        lead = ground (arith, due);
        away = ground (arith, away);
        cooled = cooled_down visit.clock attempted cool;
        reachable = e;
      },
      rw (scheduled, due, away, cool, e) refl,
    )
  ]

  scheduled-Verdict :
      (at : ℕ) → client.next_wake_at ≡ some at → Verdict visit client_id client inner result
  unfolding scheduled_wake should_wake_client is_due is_client_connected
  scheduled-Verdict at scheduled = elim (Bool-cases (is_due visit.now at)) [
    | inr early ↦ inr (
      inner,
      λ url d.
          let same = some-injective _ _ (sym d.scheduled ∙ scheduled) in
          let lead = d.lead in ground (arith, early, same, lead),
      inl refl,
      rw (scheduled, early) refl,
    )
    | inl due ↦ elim (Bool-cases (is_client_connected inner client_id)) [
      | inl here ↦ inr (
        inner,
        λ url d. let none_open = d.away in ground (arith, here, none_open),
        inl refl,
        rw (scheduled, due, here) refl,
      )
      | inr away ↦ elim (Bool-cases (too_soon visit.clock (10 * second) attempted)) [
        | inl soon ↦ inr (
          inner,
          λ url d. not_cooled visit.clock attempted soon d.cooled,
          inl refl,
          rw (scheduled, due, away, soon) refl,
        )
        | inr cool ↦ attempted-Verdict at scheduled due away cool
      ]
    ]
  ]

  scheduled_wake-Verdict : Verdict visit client_id client inner result
  unfolding scheduled_wake
  scheduled_wake-Verdict = elim (Option-cases client.next_wake_at) [
    | inl never ↦ inr (inner, λ url d. cc (never, d.scheduled), inl refl, rw never refl)
    | inr (at, scheduled) ↦ scheduled-Verdict at scheduled
  ]

-- A poll wakes exactly the clients that are due when it meets them: with a wake at most thirty seconds
-- away, no connection, no attempt in the ten seconds before and an address, whatever other tasks do
-- between two clients. It remembers the attempt; of a client that it does not wake at most an attempt.
pub scheduled_wakes-Polled :
    (clients : List (Visit × Str × ClientConfig)) (inner : Inner)
    → Polled clients inner (scheduled_wakes clients inner).1
unfolding scheduled_wakes
scheduled_wakes-Polled [] inner = over inner
scheduled_wakes-Polled ((visit, client_id, client) ∷ clients) inner =
    let met = visit.meanwhile inner in
    elim (scheduled_wake-Verdict visit client_id client met) [
      | inl (url, due, e) ↦
          rw e (woken url due (scheduled_wakes-Polled clients (tried visit client_id met)))
      | inr (after, not_due, how, e) ↦
          rw e (passed after not_due how (scheduled_wakes-Polled clients after))
    ]
