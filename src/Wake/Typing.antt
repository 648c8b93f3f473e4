-- ===== src/Wake/Typing.antt =====
-- src/wake.rs: how often typing is shown for a client that is being woken.
use discord_gateway_proxy.Wake.{wake_typing, typing_pulse, typing_max}
use discord_gateway_proxy.Prelude.{
  [], ◌∷◌, true, false, ℕ, List, Bool, ◌≤◌, ◌*◌, ◌+◌, arith, ◌<◌, ◌⊎◌, ◌≡◌, inr, refl,
}

-- Each round comes at least a pulse after the one before.
abbrev pub Spaced : ℕ → List (Bool × ℕ) → Type 0
Spaced earliest [] = Unit
Spaced earliest ((connected, elapsed) ∷ rounds) =
    (earliest ≤ elapsed) × Spaced (elapsed + typing_pulse) rounds

pulses_fit :
    (earliest : ℕ) (rounds : List (Bool × ℕ))
    → Spaced earliest rounds
    → (wake_typing rounds * typing_pulse + earliest < typing_max + typing_pulse)
      ⊎ (wake_typing rounds ≡ 0)
unfolding wake_typing
pulses_fit earliest [] h = inr refl
pulses_fit earliest ((true, elapsed) ∷ rounds) h = inr refl
pulses_fit earliest ((false, elapsed) ∷ rounds) h =
    ground (arith, pulses_fit (elapsed + typing_pulse) rounds h.1)

-- However long the client takes to connect, the bot shows that it types at most five times.
pub wake_typing-le : (rounds : List (Bool × ℕ)) → Spaced 0 rounds → wake_typing rounds ≤ 5
wake_typing-le rounds h = ground (arith, pulses_fit 0 rounds h)
