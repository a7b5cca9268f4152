-- ===== src/Locks.antt =====
-- crates/gateway/src/runtime/session_lock.rs: one turn at a time for each session. A semaphore is a
-- number; a user is a caller of `acquire` with the `Arc` that it cloned, waiting or with the permit.
mod Exclusion
mod Tests
use serial_agent.Prelude.{
  ℕ, ◌+◌, ◌≡◌, Bool, true, false, ◌&&◌, ◌||◌, Option, none, some, List, [], ◌∷◌, ◌++◌, Bytes,
  bytes_eq, eqb, any, Map, get, insert, retain, unwrap_or, length,
}

pub record User : Type 0 where
  pub session_key : Bytes
  pub sem : ℕ
  pub holds : Bool

-- The map, the next new semaphore, and those who use one.
pub record SessionLockMap : Type 0 where
  pub locks : Map Bytes ℕ
  pub next : ℕ
  pub users : List User

abbrev pub new_map : SessionLockMap
new_map = record { locks = []; next = 0; users = [] }

-- The first half of `acquire`: the semaphore of the session, a new one where it has none.
unfoldable pub enter : Bytes → SessionLockMap → SessionLockMap
enter key s =
    let sem = unwrap_or (get key s.locks) s.next in
    record {
      locks = insert key sem s.locks;
      next = s.next + 1;
      users = s.users ++ record { session_key = key; sem = sem; holds = false } ∷ [];
    }

-- `available_permits() == 0`.
abbrev pub is_held : ℕ → List User → Bool
is_held sem users = any (λ u. eqb u.sem sem && u.holds) users

-- `strong_count > 1`: some user has a clone.
abbrev pub is_shared : ℕ → List User → Bool
is_shared sem users = any (λ u. eqb u.sem sem) users

unfoldable pub prune_idle : SessionLockMap → SessionLockMap
prune_idle s = record s {
  locks = retain (λ key sem. is_shared sem s.users || is_held sem s.users) s.locks;
}

unfoldable pub session_count : SessionLockMap → ℕ
session_count s = length s.locks

abbrev pub granted_to : User → User
granted_to u = record u { holds = true }

-- What may happen: a caller takes its clone; the permit goes to a user while no one has it; a user
-- leaves, done or cancelled; and the map is pruned.
pub data Step : SessionLockMap → SessionLockMap → Type 0 where
  entered : {s : SessionLockMap} (key : Bytes) → Step s (enter key s)
  granted :
      {s : SessionLockMap} (before after : List User) (u : User)
      → s.users ≡ before ++ u ∷ after
      → is_held u.sem s.users ≡ false
      → Step s (record s { users = before ++ granted_to u ∷ after })
  left :
      {s : SessionLockMap} (before after : List User) (u : User)
      → s.users ≡ before ++ u ∷ after
      → Step s (record s { users = before ++ after })
  pruned : {s : SessionLockMap} → Step s (prune_idle s)

pub data Steps : SessionLockMap → Type 0 where
  start : Steps new_map
  then_ : {s t : SessionLockMap} → Steps s → Step s t → Steps t
