-- ===== src/State/Sessions.antt =====
-- src/state.rs: sessions, `prune_expired_sessions`, `get_session` and `create_session`.
pub mod Creation
use discord_gateway_proxy.Prelude.{
  ℕ, ◌-◌, ◌≡◌, refl, Bool, true, false, Option, none, some, List, [], ◌∷◌, arith, Str, str_eq,
  str_beq, leb, if◌then◌else◌, Bool-cases, Option-cases, inl, inr, ◌∙◌, sym, contains, str_beq_iff,
  ap, subst,
}
use discord_gateway_proxy.Map
use discord_gateway_proxy.Map.{
  Map, Distinct, get-insert, get-retain, contains_key-get, insert-Distinct, retain-Distinct,
}
use discord_gateway_proxy.State.{Session, Inner, session_ttl}

-- `now.duration_since(session.last_accessed) <= SESSION_TTL`.
unfoldable pub is_fresh : ℕ → Session → Bool
is_fresh now session = leb (now - session.last_accessed) session_ttl

unfoldable pub prune_expired_sessions : ℕ → Map Str Session → Map Str Session
unfolding is_fresh
prune_expired_sessions now sessions = Map.retain (λ _ session. is_fresh now session) sessions

unfoldable pub get_session : ℕ → Str → Inner → Option Session × Inner
unfolding prune_expired_sessions
get_session now session_id inner =
    let sessions = prune_expired_sessions now inner.sessions in
    elim (Map.get sessions session_id) [
      | none ↦ (none, record inner { sessions = sessions })
      | some session ↦
          let touched = record session { last_accessed = now } in
          (some touched, record inner { sessions = Map.insert sessions session_id touched })
    ]

-- The loop that draws identifiers until one is new; `draws` are the random ones, in order.
unfoldable pub first_unused : Map Str Session → List Str → Option Str
first_unused sessions [] = none
first_unused sessions (session_id ∷ draws) =
    let rest = first_unused sessions draws in
    if Map.contains_key sessions session_id then rest else some session_id

-- `none` only if no draw was new.
unfoldable pub create_session : ℕ → List Str → Session → Inner → Option (Str × Inner)
unfolding prune_expired_sessions first_unused
create_session now draws session inner =
    let sessions = prune_expired_sessions now inner.sessions in
    elim (first_unused sessions draws) [
      | none ↦ none
      | some session_id ↦
          some (session_id, record inner { sessions = Map.insert sessions session_id session })
    ]

-- What a lookup at `now` finds of a stored session.
abbrev pub live : ℕ → Option Session → Option Session
live now none = none
live now (some session) = if is_fresh now session then some session else none

abbrev pub touch : ℕ → Option Session → Option Session
touch now none = none
touch now (some session) = some (record session { last_accessed = now })

pub get-prune :
    (now : ℕ) (sessions : Map Str Session) (id : Str)
    → Distinct sessions
    → Map.get (prune_expired_sessions now sessions) id ≡ live now (Map.get sessions id)
unfolding prune_expired_sessions
get-prune now sessions id d =
    get-retain (λ _ session. is_fresh now session) sessions id d ∙ same (Map.get sessions id)
  where
    same :
        (o : Option Session)
        → (elim o [
          | none ↦ none
          | some session ↦ if is_fresh now session then some session else none
        ])
          ≡ live now o
    same none = refl
    same (some session) = refl

-- A stored session that is still fresh is found, and its last use is now; one that is not is gone.
pub get_session_lem :
    (now : ℕ) (id : Str) (inner : Inner)
    → Distinct inner.sessions
    → (get_session now id inner).0 ≡ touch now (live now (Map.get inner.sessions id))
unfolding get_session
get_session_lem now id inner d =
    elim (Option-cases (Map.get (prune_expired_sessions now inner.sessions) id)) [
      | inl e ↦ rw (e, get_session) (rw (← get-prune now inner.sessions id d, e))
      | inr (session, e) ↦ rw (e, get_session) (rw (← get-prune now inner.sessions id d, e))
    ]

pub prune-Distinct :
    (now : ℕ) (sessions : Map Str Session)
    → Distinct sessions
    → Distinct (prune_expired_sessions now sessions)
unfolding prune_expired_sessions
prune-Distinct now sessions d = retain-Distinct _ sessions d

pub get_session-Distinct :
    (now : ℕ) (id : Str) (inner : Inner)
    → Distinct inner.sessions
    → Distinct (get_session now id inner).1.sessions
unfolding get_session
get_session-Distinct now id inner d =
    elim (Option-cases (Map.get (prune_expired_sessions now inner.sessions) id)) [
      | inl e ↦ rw (e, get_session) (prune-Distinct now inner.sessions d)
      | inr (session, e) ↦
          rw (e, get_session) (insert-Distinct _ id _ (prune-Distinct now inner.sessions d))
    ]

-- What a lookup leaves under each identifier.
sessions-get_session :
    (now : ℕ) (id : Str) (inner : Inner)
    → Distinct inner.sessions
    → Map.get (get_session now id inner).1.sessions id
      ≡ touch now (live now (Map.get inner.sessions id))
unfolding get_session
sessions-get_session now id inner d =
    elim (Option-cases (Map.get (prune_expired_sessions now inner.sessions) id)) [
      | inl e ↦ rw (e, get_session) (rw (← get-prune now inner.sessions id d, e))
      | inr (session, e) ↦
          rw (e, get_session)
            (rw (get-insert, (str_beq_iff id id).1 refl, ← get-prune now inner.sessions id d, e))
    ]

touched_again :
    (now later : ℕ) (session : Session) (o : Option Session)
    → touch now o ≡ some session
    → touch later (live later (touch now o)) ≡ (
        if leb (later - now) session_ttl
        then some (record session { last_accessed = later })
        else none)
unfolding is_fresh
touched_again now later session none e = cc
touched_again now later session (some s) e = ground arith

-- A session that was found at `now` is found again at `later` exactly if at most the session's
-- lifetime has passed since: each use renews it.
pub get_session_renews :
    (now later : ℕ) (id : Str) (inner : Inner) (session : Session)
    → Distinct inner.sessions
    → (get_session now id inner).0 ≡ some session
    → (get_session later id (get_session now id inner).1).0 ≡ (
        if leb (later - now) session_ttl
        then some (record session { last_accessed = later })
        else none)
get_session_renews now later id inner session d h =
    get_session_lem later id (get_session now id inner).1 (get_session-Distinct now id inner d)
    ∙ ap (λ o. touch later (live later o)) (sessions-get_session now id inner d)
    ∙ touched_again now later session (live now (Map.get inner.sessions id))
        (sym (get_session_lem now id inner d) ∙ h)
