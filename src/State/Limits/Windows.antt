-- ===== src/State/Limits/Windows.antt =====
-- The rate limit of src/state.rs: how many commands of one client are allowed in one window,
-- whatever other clients send in between.
use discord_gateway_proxy.Map.{get-insert}
use discord_gateway_proxy.Prelude.{
  nat_eq, str_eq, arith, ℕ, Str, List, [], ◌∷◌, suc, str_beq, ◌≡◌, false, true, not, ◌+◌, leb, some,
  if◌then◌else◌, ◌&&◌, ◌-◌, str_beq_iff, Option, ◌<◌, str_beq_refl, Bool-cases, inl, inr, ◌∙◌,
}
use discord_gateway_proxy.Map
use discord_gateway_proxy.State.{Inner}
use discord_gateway_proxy.State.Limits.{allow_client_command, current_window}
use Prim.Native.Nat.{min, ℕ}

-- A command: the time and the client.
abbrev pub Attempt : Type 0
Attempt = ℕ × Str

module _ (limit window : ℕ) (client_id : Str) where
  -- The state after some commands, and how many of the client's were allowed.
  unfoldable pub attempts : List Attempt → Inner → ℕ × Inner
  attempts [] s = (0, s)
  attempts ((now, sender) ∷ rest) s =
      let (allowed, s') = allow_client_command now limit window sender s in
      let (n, t) = attempts rest s' in (if str_beq sender client_id && allowed then suc n else n, t)

  -- How many of the commands are the client's.
  unfoldable pub own : List Attempt → ℕ
  own [] = 0
  own ((now, sender) ∷ rest) = (if str_beq sender client_id then 1 else 0) + own rest

  -- Every command of the client comes before the window that began at `start` has passed.
  abbrev pub InWindow : ℕ → List Attempt → Type 0
  InWindow start [] = Unit
  InWindow start ((now, sender) ∷ rest) =
      (str_beq sender client_id ≡ true → now - start < window) × InWindow start rest

  allow_other :
      (now : ℕ) (sender : Str) (s : Inner)
      → str_beq sender client_id ≡ false
      → Map.get (allow_client_command now limit window sender s).1.client_command_windows client_id
        ≡ Map.get s.client_command_windows client_id
  unfolding allow_client_command
  allow_other now sender s ne =
      let (start, count) = current_window now window (Map.get s.client_command_windows sender) in
      ground (
        arith,
        get-insert s.client_command_windows sender client_id (start, count),
        get-insert s.client_command_windows sender client_id (start, count + 1),
      )

  allow_own :
      (now start count : ℕ) (sender : Str) (s : Inner)
      → str_beq sender client_id ≡ true
      → current_window now window (Map.get s.client_command_windows client_id) ≡ (start, count)
      → let (allowed, t) = allow_client_command now limit window sender s in
        (allowed ≡ not (leb limit count))
        × (Map.get t.client_command_windows client_id
            ≡ some (start, if leb limit count then count else count + 1))
  unfolding allow_client_command
  allow_own now start count sender s same e =
      let eq = (str_beq_iff sender client_id).0 same in
      rw (eq, e) ground
        (
          arith,
          str_beq_refl client_id,
          get-insert s.client_command_windows client_id client_id (start, count),
          get-insert s.client_command_windows client_id client_id (start, count + 1),
        )

  current_window_running :
      (now start count : ℕ) (found : Option (ℕ × ℕ))
      → found ≡ some (start, count)
      → now - start < window
      → current_window now window found ≡ (start, count)
  unfolding current_window
  current_window_running now start count found e h = rw e ground arith

  -- While a client's window runs, exactly the commands it has left of its limit are allowed, whatever
  -- the other clients send in between.
  pub allow_client_command_lem :
      (start count : ℕ) (commands : List Attempt) (s : Inner)
      → Map.get s.client_command_windows client_id ≡ some (start, count)
      → InWindow start commands
      → (attempts commands s).0 ≡ min (own commands) (limit - count)
  unfolding attempts own
  allow_client_command_lem start count [] s e h = omega arith
  allow_client_command_lem start count ((now, sender) ∷ rest) s e h =
      let t = (allow_client_command now limit window sender s).1 in
      elim (Bool-cases (str_beq sender client_id)) [
        | inl same ↦
            let (allowed, kept) =
              allow_own now start count sender s same
                (current_window_running now start count _ e (h.0 same)) in
            let ih =
              allow_client_command_lem start (if leb limit count then count else count + 1) rest t
                kept h.1 in
            rw (same, allowed, ih) ground arith
        | inr other ↦
            let ih =
              allow_client_command_lem start count rest t (allow_other now sender s other ∙ e)
                h.1 in
            rw (other, ih) ground arith
      ]

  -- A client whose last window has passed, or that sent nothing yet, begins a new one with its next
  -- command: of this and the later ones within it, the first `limit` are allowed and no more.
  pub allow_client_command_limit :
      (now : ℕ) (commands : List Attempt) (s : Inner)
      → current_window now window (Map.get s.client_command_windows client_id) ≡ (now, 0)
      → InWindow now commands
      → (attempts ((now, client_id) ∷ commands) s).0 ≡ min (suc (own commands)) limit
  unfolding attempts
  allow_client_command_limit now commands s e h =
      let (allowed, kept) = allow_own now now 0 client_id s (str_beq_refl client_id) e in
      let t = (allow_client_command now limit window client_id s).1 in
      let later = allow_client_command_lem now (if leb limit 0 then 0 else 1) commands t kept h in
      rw (str_beq_refl client_id, allowed, later) ground arith
