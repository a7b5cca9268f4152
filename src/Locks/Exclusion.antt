-- ===== src/Locks/Exclusion.antt =====
-- That a session has at most one turn at a time, also where its lock is pruned
-- (crates/gateway/src/runtime/session_lock.rs).
use serial_agent.Prelude.{
  ℕ, ◌+◌, ◌≤◌, ◌≡◌, inl, inr, refl, sym, ap, subst, ◌∙◌, Bool, true, false, ◌&&◌, ◌||◌, some, List,
  [], ◌∷◌, ◌++◌, arith, Bytes, bytes_eq, bytes_beq_iff, ◌==◌, All, Bool-cases, Map, get, insert,
  get-insert, get-retain, unwrap_or, HasDistinctKeys, insert-HasDistinctKeys,
  retain-HasDistinctKeys, if◌then◌else◌,
}
use mathlib.Core.List.{append_assoc}
use serial_agent.Locks.{
  User, SessionLockMap, enter, is_held, is_shared, prune_idle, granted_to, Step, entered, granted,
  left, pruned, Steps, start, then_,
}

-- The turns of a session that have the permit.
abbrev pub one : Bool → ℕ
one b = if b then 1 else 0

abbrev pub holders : Bytes → List User → ℕ
holders key [] = 0
holders key (u ∷ users) = one ((u.session_key == key) && u.holds) + holders key users

holders-append :
    (key : Bytes) (us vs : List User) → holders key (us ++ vs) ≡ holders key us + holders key vs
holders-append key [] vs = omega arith
holders-append key (u ∷ us) vs =
    let ih = holders-append key us vs in
    ap (λ n. one ((u.session_key == key) && u.holds) + n) ih ∙ omega arith

-- A user's semaphore is that of its session in the map.
abbrev IsListed : Map Bytes ℕ → User → Type 0
IsListed locks u = get u.session_key locks ≡ some u.sem

All-append : (P : User → Type 0) (us vs : List User) → All P us → All P vs → All P (us ++ vs)
All-append P [] vs h k = k
All-append P (u ∷ us) vs h k = (h.0, All-append P us vs h.1 k)

All-left : (P : User → Type 0) (us vs : List User) → All P (us ++ vs) → All P us
All-left P [] vs h = tt
All-left P (u ∷ us) vs h = (h.0, All-left P us vs h.1)

All-right : (P : User → Type 0) (us vs : List User) → All P (us ++ vs) → All P vs
All-right P [] vs h = h
All-right P (u ∷ us) vs h = All-right P us vs h.1

pub record IsExclusive (s : SessionLockMap) : Type 0 where
  pub distinct : HasDistinctKeys s.locks
  pub listed : All (IsListed s.locks) s.users
  pub one_holder : (key : Bytes) → holders key s.users ≤ 1

-- While no one has the permit of a session's semaphore, the session has no turn.
no_holder :
    (locks : Map Bytes ℕ) (key : Bytes) (sem : ℕ) (users : List User)
    → get key locks ≡ some sem
    → All (IsListed locks) users
    → is_held sem users ≡ false
    → holders key users ≡ 0
no_holder locks key sem [] here listed free = refl
no_holder locks key sem (u ∷ users) here listed free =
    let rest = no_holder locks key sem users here listed.1 (ground (arith, free)) in
    elim (Bool-cases (u.session_key == key)) [
      | inl same ↦
          let name : u.session_key ≡ key = (bytes_beq_iff u.session_key key).0 same in
          let its_sem : u.sem ≡ sem =
            ap (λ o. unwrap_or o 0) (sym listed.0 ∙ ap (λ k. get k locks) name ∙ here) in
          let waits : u.holds ≡ false = ground (arith, free, its_sem) in
          rw (same, waits) (omega (arith, rest))
      | inr other ↦ rw other (omega (arith, rest))
    ]

held_one : (b h : Bool) → one (b && h) ≤ 1
held_one true true = omega arith
held_one true false = omega arith
held_one false h = omega arith

enter-IsListed :
    (key : Bytes) (locks : Map Bytes ℕ) (fresh : ℕ) (users : List User)
    → All (IsListed locks) users
    → All (IsListed (insert key (unwrap_or (get key locks) fresh) locks)) users
enter-IsListed key locks fresh [] h = tt
enter-IsListed key locks fresh (u ∷ users) h =
    let sem = unwrap_or (get key locks) fresh in
    let found = get-insert key u.session_key sem locks in
    let rest = enter-IsListed key locks fresh users h.1 in
    elim (Bool-cases (key == u.session_key)) [
      | inl same ↦
          let name : key ≡ u.session_key = (bytes_beq_iff key u.session_key).0 same in
          let its_sem : sem ≡ u.sem =
            ap (λ o. unwrap_or o fresh) (ap (λ k. get k locks) name ∙ h.0) in
          (found ∙ rw same (ap some its_sem), rest)
      | inr other ↦ (found ∙ rw other h.0, rest)
    ]

enter-IsExclusive : (key : Bytes) (s : SessionLockMap) → IsExclusive s → IsExclusive (enter key s)
unfolding enter
enter-IsExclusive key s h =
    let sem = unwrap_or (get key s.locks) s.next in
    let u : User = record { session_key = key; sem = sem; holds = false } in
    let same : (key == key) ≡ true = ground (arith, bytes_beq_iff key key) in
    record {
      distinct = insert-HasDistinctKeys key sem s.locks h.distinct;
      listed =
          All-append (IsListed (insert key sem s.locks)) s.users (u ∷ [])
            (enter-IsListed key s.locks s.next s.users h.listed)
            (get-insert key key sem s.locks ∙ rw same refl, tt);
      one_holder = λ k.
          let waits : one ((key == k) && false) ≡ 0 = ground arith in
          omega (arith, holders-append k s.users (u ∷ []), h.one_holder k, waits);
    }

granted-IsExclusive :
    (before after : List User) (u : User) (s : SessionLockMap)
    → s.users ≡ before ++ u ∷ after
    → is_held u.sem s.users ≡ false
    → IsExclusive s
    → IsExclusive (record s { users = before ++ granted_to u ∷ after })
granted-IsExclusive before after u s e free h =
    let listed = subst (λ us. All (IsListed s.locks) us) e h.listed in
    let mine = All-right (IsListed s.locks) before (u ∷ after) listed in
    record {
      distinct = h.distinct;
      listed =
          All-append (IsListed s.locks) before (granted_to u ∷ after)
            (All-left (IsListed s.locks) before (u ∷ after) listed) mine;
      one_holder = λ k.
          let was : holders k s.users
              ≡ holders k before + (one ((u.session_key == k) && u.holds) + holders k after) =
            ap (holders k) e ∙ holders-append k before (u ∷ after) in
          let is_ = holders-append k before (granted_to u ∷ after) in
          elim (Bool-cases (u.session_key == k)) [
            | inl same ↦
                let name : u.session_key ≡ k = (bytes_beq_iff u.session_key k).0 same in
                let none_yet =
                  no_holder s.locks k u.sem s.users (ap (λ k. get k s.locks) (sym name) ∙ mine.0)
                    h.listed free in
                omega (arith, was, is_, none_yet, held_one (u.session_key == k) true)
            | inr other ↦
                let waits : one ((u.session_key == k) && true) ≡ 0 = ground (arith, other) in
                omega (arith, was, is_, h.one_holder k, waits)
          ];
    }

left-IsExclusive :
    (before after : List User) (u : User) (s : SessionLockMap)
    → s.users ≡ before ++ u ∷ after
    → IsExclusive s
    → IsExclusive (record s { users = before ++ after })
left-IsExclusive before after u s e h =
    let listed = subst (λ us. All (IsListed s.locks) us) e h.listed in
    record {
      distinct = h.distinct;
      listed =
          All-append (IsListed s.locks) before after
            (All-left (IsListed s.locks) before (u ∷ after) listed)
            (All-right (IsListed s.locks) before (u ∷ after) listed).1;
      one_holder = λ k.
          let was : holders k s.users
              ≡ holders k before + (one ((u.session_key == k) && u.holds) + holders k after) =
            ap (holders k) e ∙ holders-append k before (u ∷ after) in
          omega (arith, was, holders-append k before after, h.one_holder k);
    }

is_shared-append :
    (u : User) (before users : List User) → is_shared u.sem (before ++ u ∷ users) ≡ true
is_shared-append u [] users = ground arith
is_shared-append u (v ∷ before) users = ground (arith, is_shared-append u before users)

-- A lock that has a user is kept.
pruned-IsListed :
    (s : SessionLockMap) (users before : List User)
    → s.users ≡ before ++ users
    → HasDistinctKeys s.locks
    → All (IsListed s.locks) users
    → All (IsListed (prune_idle s).locks) users
unfolding prune_idle
pruned-IsListed s [] before e d h = tt
pruned-IsListed s (u ∷ users) before e d h =
    let keeps : Bytes → ℕ → Bool = λ key sem. is_shared sem s.users || is_held sem s.users in
    let shared : is_shared u.sem s.users ≡ true =
      ap (is_shared u.sem) e ∙ is_shared-append u before users in
    (
      get-retain u.session_key keeps s.locks d ∙ rw (h.0, shared) refl,
      pruned-IsListed s users (before ++ u ∷ []) (e ∙ sym (append_assoc before (u ∷ []) users)) d
          h.1,
    )

step-IsExclusive : {s t : SessionLockMap} → Step s t → IsExclusive s → IsExclusive t
unfolding prune_idle
step-IsExclusive (entered {s} key) h = enter-IsExclusive key s h
step-IsExclusive (granted {s} before after u e free) h =
    granted-IsExclusive before after u s e free h
step-IsExclusive (left {s} before after u e) h = left-IsExclusive before after u s e h
step-IsExclusive (pruned {s}) h = record {
  distinct =
      retain-HasDistinctKeys (λ key sem. is_shared sem s.users || is_held sem s.users) s.locks
        h.distinct;
  listed = pruned-IsListed s s.users [] refl h.distinct h.listed;
  one_holder = h.one_holder;
}

Steps-IsExclusive : {s : SessionLockMap} → Steps s → IsExclusive s
Steps-IsExclusive start = record { distinct = tt; listed = tt; one_holder = λ k. omega arith }
Steps-IsExclusive (then_ before step) = step-IsExclusive step (Steps-IsExclusive before)

-- However callers come, wait, get the permit and leave, and whenever the map is pruned, a session
-- has at most one turn with the permit.
pub holders-Steps : (s : SessionLockMap) (key : Bytes) → Steps s → holders key s.users ≤ 1
holders-Steps s key steps = (Steps-IsExclusive steps).one_holder key
