-- ===== src/Locks/Tests.antt =====
-- A session with one turn running and one that waits, after the map was pruned.
use serial_agent.Prelude.{
  ◌≤◌, ◌≡◌, refl, true, false, some, [], ◌∷◌, bytes, bytes_eq, get, insert, retain,
}
use serial_agent.Locks.{
  User, SessionLockMap, new_map, enter, prune_idle, entered, granted, pruned, Steps, start, then_,
}
use serial_agent.Locks.Exclusion.{holders, holders-Steps}

abbrev first : User
first = record { session_key = bytes "a"; sem = 0; holds = true }

abbrev entered_once : SessionLockMap
unfolding enter get insert
entered_once = enter (bytes "a") new_map

abbrev running_one : SessionLockMap
running_one = record entered_once { users = first ∷ [] }

abbrev one_waits : SessionLockMap
unfolding enter get insert
one_waits = prune_idle (enter (bytes "a") running_one)

way : Steps one_waits
unfolding enter get insert
way =
    then_
      (then_
        (then_ (then_ start (entered (bytes "a")))
          (granted [] [] (record { session_key = bytes "a"; sem = 0; holds = false }) refl refl))
        (entered (bytes "a")))
      pruned

holders-Steps_example : holders (bytes "a") one_waits.users ≤ 1
holders-Steps_example = holders-Steps one_waits (bytes "a") way

still_there : get (bytes "a") one_waits.locks ≡ some 0
unfolding enter get insert prune_idle retain
still_there = refl
