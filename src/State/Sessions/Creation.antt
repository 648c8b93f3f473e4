-- ===== src/State/Sessions/Creation.antt =====
-- src/state.rs: `create_session`, its loop over the draws and what it stores.
use discord_gateway_proxy.State.Sessions.{
  is_fresh, prune_expired_sessions, get_session, first_unused, create_session, live, touch,
  get-prune, get_session_lem, prune-Distinct,
}
use discord_gateway_proxy.Prelude.{
  ℕ, ◌-◌, ◌≡◌, refl, true, false, none, some, List, [], ◌∷◌, arith, Str, str_eq, str_beq, leb,
  if◌then◌else◌, Bool-cases, Option-cases, inl, inr, ◌∙◌, sym, contains, str_beq_iff, ap, subst,
}
use discord_gateway_proxy.Map
use discord_gateway_proxy.Map.{
  Map, Distinct, get-insert, get-retain, contains_key-get, insert-Distinct, retain-Distinct,
}
use discord_gateway_proxy.State.{Session, Inner, session_ttl}

first_unused-unused :
    (sessions : Map Str Session) (draws : List Str) (id : Str)
    → first_unused sessions draws ≡ some id
    → Map.get sessions id ≡ none
unfolding first_unused
first_unused-unused sessions [] id h = cc
first_unused-unused sessions (draw ∷ draws) id h =
    ground (arith, first_unused-unused sessions draws id, contains_key-get sessions draw)

first_unused_total :
    (sessions : Map Str Session) (draws : List Str) (id : Str)
    → contains draws id ≡ true
    → Map.get sessions id ≡ none
    → (found : Str) × (first_unused sessions draws ≡ some found)
unfolding first_unused contains
first_unused_total sessions [] id m h = cc
first_unused_total sessions (draw ∷ draws) id m h =
    elim (Bool-cases (Map.contains_key sessions draw)) [
      | inl used ↦ rw used (
          first_unused_total sessions draws id
            (ground (arith, str_beq_iff draw id, contains_key-get sessions draw)) h)
      | inr unused ↦ rw unused (draw, refl)
    ]

create_session_inv :
    (now : ℕ) (draws : List Str) (session : Session) (inner inner' : Inner) (id : Str)
    → create_session now draws session inner ≡ some (id, inner')
    → (first_unused (prune_expired_sessions now inner.sessions) draws ≡ some id)
      × (inner'.sessions ≡ Map.insert (prune_expired_sessions now inner.sessions) id session)
unfolding create_session
create_session_inv now draws session inner inner' id h =
    elim (Option-cases (first_unused (prune_expired_sessions now inner.sessions) draws)) [
      | inl e ↦ cc (rw (e, create_session) at h)
      | inr (found, e) ↦
          let h' = rw (e, create_session) at h in (ground (arith, e, h'), ground (arith, e, h'))
    ]

touched_new :
    (later : ℕ) (session : Session)
    → touch later (live later (some session)) ≡ (
        if leb (later - session.last_accessed) session_ttl
        then some (record session { last_accessed = later })
        else none)
unfolding is_fresh
touched_new later session = ground arith

-- A created session is found under the new identifier exactly until its lifetime has passed since
-- its last use, and nothing changes under any other identifier but the end of what had expired.
pub get_session-create_session :
    (now later : ℕ) (draws : List Str) (session : Session) (inner inner' : Inner) (id : Str)
    → Distinct inner.sessions
    → create_session now draws session inner ≡ some (id, inner')
    → ((get_session later id inner').0 ≡ (
        if leb (later - session.last_accessed) session_ttl
        then some (record session { last_accessed = later })
        else none))
      × (live now (Map.get inner.sessions id) ≡ none)
      × ((other : Str)
          → str_beq id other ≡ false
          → Map.get inner'.sessions other ≡ live now (Map.get inner.sessions other))
get_session-create_session now later draws session inner inner' id d h =
    let (unused, stored) = create_session_inv now draws session inner inner' id h in
    let pruned = prune_expired_sessions now inner.sessions in
    (
      get_session_lem later id inner' (
            subst Distinct (sym stored)
              (insert-Distinct pruned id session (prune-Distinct now _ d)))
          ∙ rw (stored, get-insert, (str_beq_iff id id).1 refl) (touched_new later session),
      sym (get-prune now inner.sessions id d) ∙ first_unused-unused pruned draws id unused,
      λ other ne. rw (stored, get-insert, ne) (get-prune now inner.sessions other d),
    )

-- If one of the draws is not the identifier of a stored session, a session is created.
pub create_session_total :
    (now : ℕ) (draws : List Str) (session : Session) (inner : Inner) (id : Str)
    → Distinct inner.sessions
    → contains draws id ≡ true
    → Map.get inner.sessions id ≡ none
    → (result : Str × Inner) × (create_session now draws session inner ≡ some result)
unfolding create_session
create_session_total now draws session inner id d m h =
    let (found, e) =
      first_unused_total (prune_expired_sessions now inner.sessions) draws id m
        (get-prune now inner.sessions id d ∙ ap (live now) h) in
    (
      (
        found,
        record inner {
          sessions = Map.insert (prune_expired_sessions now inner.sessions) found session;
        },
      ),
      rw (e, create_session),
    )
