-- ===== src/Nodes/Matching.antt =====
-- crates/gateway/src/nodes/registry.rs: the prefix test of capabilities and allowlists.
use serial_agent.Prelude.{
  ℕ, suc, ◌≡◌, refl, ap, true, ◌⊎◌, inl, inr, ◌↔◌, some, [], ◌∷◌, ◌++◌, arith, eqb_iff, Bytes,
  bytes_beq, bytes_beq_iff, length, get_elem?, drop, length-append, Bool-cases,
}
use serial_agent.Nodes.{starts_with, byte_is, covers}

-- `name` is `prefix` itself or one of the names below it.
abbrev pub IsBelow : Bytes → Bytes → Type 0
IsBelow prefix name = (name ≡ prefix) ⊎ ((rest : Bytes) × (name ≡ prefix ++ b'.' ∷ rest))

dotted :
    (p s : Bytes)
    → starts_with s p ≡ true
    → byte_is (get_elem? s (length p)) b'.' ≡ true
    → s ≡ p ++ b'.' ∷ drop (suc (length p)) s
unfolding starts_with
dotted [] [] h k = cc
dotted [] (c ∷ s) h k = ground (arith, eqb_iff c b'.')
dotted (a ∷ p) [] h k = cc
dotted (a ∷ p) (c ∷ s) h k = ground (arith, eqb_iff c a, dotted p s)

starts_with-append : (p r : Bytes) → starts_with (p ++ r) p ≡ true
unfolding starts_with
starts_with-append [] r = refl
starts_with-append (a ∷ p) r = ground (arith, starts_with-append p r)

byte_after : (p r : Bytes) (c : ℕ) → get_elem? (p ++ c ∷ r) (length p) ≡ some c
byte_after [] r c = refl
byte_after (a ∷ p) r c = byte_after p r c

-- The test accepts the name itself and the dotted names below it, and no other: `a.bc` is not
-- covered by `a.b`.
pub covers_iff : (prefix name : Bytes) → (covers prefix name ≡ true) ↔ IsBelow prefix name
unfolding covers
covers_iff prefix name = (there, back)
  where
    there : covers prefix name ≡ true → IsBelow prefix name
    there h = elim (Bool-cases (bytes_beq name prefix)) [
      | inl same ↦ inl ((bytes_beq_iff name prefix).0 same)
      | inr other ↦
          inr (drop (suc (length prefix)) name, dotted prefix name (ground arith) (ground arith))
    ]

    back : IsBelow prefix name → covers prefix name ≡ true
    back (inl e) = ground (arith, bytes_beq_iff name prefix)
    back (inr (rest, e)) = ground (
      arith,
      ap length e,
      length-append prefix (b'.' ∷ rest),
      starts_with-append prefix (b'.' ∷ rest),
      byte_after prefix rest b'.',
    )
