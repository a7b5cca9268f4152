-- ===== src/Sessions/Isolation.antt =====
-- crates/sessions/src/session_key.rs: which messages have the same key.

use serial_agent.Prelude.{
  ◌≡◌, ◌≢◌, ◌↔◌, refl, sym, ap, ◌∙◌, arith, true, false, none, some, [], ◌∷◌, ◌++◌, if◌then◌else◌,
  Bytes, bytes, All,
}
use serial_agent.Sessions.{
  DmScope, main, per_peer, per_channel_peer, per_account_channel_peer, InboundMetadata,
}
use serial_agent.Sessions.Key.{
  channel_of, account_of, peer_of, colon, compute_group_key, group_key, direct_key,
  compute_session_key,
}

append-cancel : (p x y : Bytes) → p ++ x ≡ p ++ y → x ≡ y
append-cancel [] x y e = e
append-cancel (a ∷ p) x y e = append-cancel p x y (ground arith)

-- A text with no colon.
abbrev pub IsPlain : Bytes → Type 0
IsPlain s = All (λ b. b ≢ 58) s

split_at_colon :
    (c d x y : Bytes) → IsPlain c → IsPlain d → c ++ 58 ∷ x ≡ d ++ 58 ∷ y → (c ≡ d) × (x ≡ y)
split_at_colon [] [] x y p q e = (refl, ground arith)
split_at_colon [] (b ∷ d) x y p q e = absurd (ground arith)
split_at_colon (a ∷ c) [] x y p q e = absurd (ground arith)
split_at_colon (a ∷ c) (b ∷ d) x y p q e =
    let (same, rest) = split_at_colon c d x y p.1 q.1 (ground arith) in ground arith

-- The fields that a scope looks at are the same.
abbrev pub AreJoined : DmScope → InboundMetadata → InboundMetadata → Type 0
AreJoined main m n = Unit
AreJoined per_peer m n = peer_of m ≡ peer_of n
AreJoined per_channel_peer m n = (channel_of m ≡ channel_of n) × (peer_of m ≡ peer_of n)
AreJoined per_account_channel_peer m n =
    (channel_of m ≡ channel_of n) × (account_of m ≡ account_of n) × (peer_of m ≡ peer_of n)

abbrev after_channel : InboundMetadata → Bytes
after_channel m = colon ++ (channel_of m ++ (bytes ":dm:" ++ peer_of m))

abbrev after_account : InboundMetadata → Bytes
after_account m =
    colon ++ (channel_of m ++ (colon ++ (account_of m ++ (bytes ":dm:" ++ peer_of m))))

direct_key-AreJoined :
    (base : Bytes) (scope : DmScope) (m n : InboundMetadata)
    → IsPlain (channel_of m)
    → IsPlain (channel_of n)
    → IsPlain (account_of m)
    → IsPlain (account_of n)
    → direct_key base scope m ≡ direct_key base scope n
    → AreJoined scope m n
direct_key-AreJoined base main m n cm cn am an e = tt
direct_key-AreJoined base per_peer m n cm cn am an e =
    append-cancel (bytes ":dm:") (peer_of m) (peer_of n)
      (append-cancel base (bytes ":dm:" ++ peer_of m) (bytes ":dm:" ++ peer_of n) e)
direct_key-AreJoined base per_channel_peer m n cm cn am an e =
    let (c, rest) =
      split_at_colon (channel_of m) (channel_of n) _ _ cm cn
        (append-cancel colon _ _ (append-cancel base (after_channel m) (after_channel n) e)) in
    (c, append-cancel (bytes "dm:") _ _ rest)
direct_key-AreJoined base per_account_channel_peer m n cm cn am an e =
    let (c, rest) =
      split_at_colon (channel_of m) (channel_of n) _ _ cm cn
        (append-cancel colon _ _ (append-cancel base (after_account m) (after_account n) e)) in
    let (a, last) = split_at_colon (account_of m) (account_of n) _ _ am an rest in
    (c, a, append-cancel (bytes "dm:") _ _ last)

joined-direct_key :
    (base : Bytes) (scope : DmScope) (m n : InboundMetadata)
    → AreJoined scope m n
    → direct_key base scope m ≡ direct_key base scope n
joined-direct_key base main m n j = refl
joined-direct_key base per_peer m n j = rw j
joined-direct_key base per_channel_peer m n j = rw (j.0, j.1)
joined-direct_key base per_account_channel_peer m n j = rw (j.0, j.1, j.2)

key_of_direct :
    (agent_id : Bytes) (scope : DmScope) (m : InboundMetadata)
    → m.is_direct ≡ true
    → compute_session_key agent_id scope m ≡ direct_key (bytes "agent:" ++ agent_id) scope m
unfolding compute_session_key
key_of_direct agent_id scope m d =
    let base = bytes "agent:" ++ agent_id in
    ap (λ b. if b then direct_key base scope m else group_key base m) d

key_of_group :
    (agent_id : Bytes) (scope : DmScope) (m : InboundMetadata)
    → m.is_direct ≡ false
    → compute_session_key agent_id scope m ≡ group_key (bytes "agent:" ++ agent_id) m
unfolding compute_session_key
key_of_group agent_id scope m d =
    let base = bytes "agent:" ++ agent_id in
    ap (λ b. if b then direct_key base scope m else group_key base m) d

-- Two direct messages of an agent share a session exactly when the fields that the scope looks at
-- are the same, where no channel and no account name has a colon.
pub compute_session_key-AreJoined :
    (agent_id : Bytes) (scope : DmScope) (m n : InboundMetadata)
    → m.is_direct ≡ true
    → n.is_direct ≡ true
    → IsPlain (channel_of m)
    → IsPlain (channel_of n)
    → IsPlain (account_of m)
    → IsPlain (account_of n)
    → (compute_session_key agent_id scope m ≡ compute_session_key agent_id scope n)
      ↔ AreJoined scope m n
compute_session_key-AreJoined agent_id scope m n dm dn cm cn am an =
    let base = bytes "agent:" ++ agent_id in
    let km = key_of_direct agent_id scope m dm in
    let kn = key_of_direct agent_id scope n dn in
    (
      (λ e. direct_key-AreJoined base scope m n cm cn am an (sym km ∙ e ∙ kn)),
      λ j. km ∙ joined-direct_key base scope m n j ∙ sym kn,
    )

-- A channel id that has a colon meets the key of another group: the message of channel `c` in the
-- group `g` shares the session of the message with the channel id `g:c` and no group.
pub group_keys_collide :
    (agent_id g c : Bytes) (scope : DmScope) (m : InboundMetadata)
    → m.is_direct ≡ false
    → compute_session_key agent_id scope (record m { group_id = some g; channel_id = some c })
      ≡ compute_session_key agent_id scope
          (record m { group_id = none; channel_id = some (g ++ (colon ++ c)) })
unfolding compute_group_key
group_keys_collide agent_id g c scope m d =
    let base = bytes "agent:" ++ agent_id in
    key_of_group agent_id scope (record m { group_id = some g; channel_id = some c }) d
    ∙ same_key base
    ∙ sym (
        key_of_group agent_id scope
          (record m { group_id = none; channel_id = some (g ++ (colon ++ c)) }) d)
  where
    same_key :
        (base : Bytes)
        → group_key base (record m { group_id = some g; channel_id = some c })
          ≡ group_key base (record m { group_id = none; channel_id = some (g ++ (colon ++ c)) })
    same_key base = refl
