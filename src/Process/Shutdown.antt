-- ===== src/Process/Shutdown.antt =====
-- src/main.rs: the counts that the shutdown reports.
use discord_gateway_proxy.Process.{await_dispatch}
use discord_gateway_proxy.Prelude.{
  zero, suc, true, false, [], ◌∷◌, ℕ, List, Bool, ◌+◌, ◌≡◌, arith, refl,
}

-- Every dispatch task is counted once, as graceful or as not.
pub await_dispatch_total :
    (graceful ungraceful : ℕ) (joined : List Bool)
    → (await_dispatch graceful ungraceful joined).0 + (await_dispatch graceful ungraceful joined).1
      ≡ graceful + ungraceful
unfolding await_dispatch
await_dispatch_total graceful zero joined = refl
await_dispatch_total graceful (suc ungraceful) [] = refl
await_dispatch_total graceful (suc ungraceful) (true ∷ joined) =
    omega (arith, await_dispatch_total (graceful + 1) ungraceful joined)
await_dispatch_total graceful (suc ungraceful) (false ∷ joined) = refl
