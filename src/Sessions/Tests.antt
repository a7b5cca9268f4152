-- ===== src/Sessions/Tests.antt =====
-- Session keys and resets of crates/sessions on small examples.
use serial_agent.Prelude.{
  ◌-◌, ◌/◌, ◌≤◌, ◌≡◌, ◌↔◌, refl, arith, true, false, none, some, [], ◌∷◌, ◌++◌, bytes, bytes_eq,
  get, insert,
}
use serial_agent.Sessions.{per_channel_peer, InboundMetadata}
use serial_agent.Sessions.Key.{
  from_config, resolve_identity, channel_of, account_of, colon, compute_session_key,
}
use serial_agent.Sessions.Isolation.{
  IsPlain, AreJoined, compute_session_key-AreJoined, group_keys_collide,
}
use serial_agent.Sessions.Lifecycle.{
  LifecycleConfig, crossed_daily_boundary, resolve_params, check_daily, check_idle, should_reset,
}
use serial_agent.Sessions.Boundary.{IsCrossed, crossed_daily_boundary_iff}

abbrev from_alice : InboundMetadata
from_alice = record {
  channel = some (bytes "Web");
  account_id = none;
  peer_id = some (bytes "al");
  group_id = none;
  channel_id = none;
  thread_id = some (bytes "t");
  is_direct = true;
}

abbrev in_group : InboundMetadata
in_group = record from_alice { is_direct = false; thread_id = none }

-- A direct message takes no thread, and its channel is lowercase.
key_of_alice :
    compute_session_key (bytes "a") per_channel_peer from_alice ≡ bytes "agent:a:web:dm:al"
unfolding compute_session_key
key_of_alice = refl

web-IsPlain : IsPlain (channel_of from_alice)
web-IsPlain = ((λ e. omega arith), ((λ e. omega arith), ((λ e. omega arith), tt)))

account-IsPlain : IsPlain (account_of from_alice)
account-IsPlain = (
  (λ e. omega arith),
  (
    (λ e. omega arith),
    (
      (λ e. omega arith),
      ((λ e. omega arith), ((λ e. omega arith), ((λ e. omega arith), ((λ e. omega arith), tt)))),
    ),
  ),
)

compute_session_key-AreJoined_example :
    (compute_session_key (bytes "a") per_channel_peer from_alice
      ≡ compute_session_key (bytes "a") per_channel_peer from_alice)
    ↔ AreJoined per_channel_peer from_alice from_alice
compute_session_key-AreJoined_example =
    compute_session_key-AreJoined (bytes "a") per_channel_peer from_alice from_alice refl refl
      web-IsPlain web-IsPlain account-IsPlain account-IsPlain

group_keys_collide_example :
    compute_session_key
      (bytes "a")
      per_channel_peer
      (record in_group { group_id = some (bytes "g"); channel_id = some (bytes "c") })
    ≡ compute_session_key
        (bytes "a")
        per_channel_peer
        (record in_group { group_id = none; channel_id = some (bytes "g" ++ (colon ++ bytes "c")) })
group_keys_collide_example =
    group_keys_collide (bytes "a") (bytes "g") (bytes "c") per_channel_peer in_group refl

linked :
    resolve_identity
      (from_config (record { canonical = bytes "al"; peer_ids = bytes "t:1" ∷ [] } ∷ []) [])
      (bytes "t:1")
    ≡ bytes "al"
unfolding resolve_identity from_config get insert
linked = refl

-- From 03:00 to 05:00 of the second day, with a reset at 04:00.
crossed_daily_boundary_iff_example :
    (crossed_daily_boundary 97200000 104400000 4 ≡ true)
    ↔ ((60 ≤ (104400000 - 97200000) / 1000) × IsCrossed 97200000 104400000 4)
crossed_daily_boundary_iff_example = crossed_daily_boundary_iff 97200000 104400000 4 (omega arith)

abbrev default_config : LifecycleConfig
default_config = record {
  daily_reset_hour = some 4;
  idle_minutes = none;
  reset_by_type = [];
  reset_by_channel = [];
}

not_yet : should_reset default_config 97200000 from_alice 100000000 ≡ none
unfolding should_reset resolve_params check_daily check_idle crossed_daily_boundary get
not_yet = refl
