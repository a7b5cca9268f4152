-- ===== src/Nodes/Ranking.antt =====
-- crates/gateway/src/nodes/registry.rs: the order of candidates that the search compares by.
use serial_agent.Prelude.{
  ◌≡◌, refl, true, false, inl, inr, Option, some, List, [], ◌∷◌, arith, Bytes, bytes_eq, In,
  Bool-cases,
}
use serial_agent.Nodes.Routing.{bytes_ltb, Candidate, beats, challenge}

bytes_ltb_cotrans :
    (a b c : Bytes) → bytes_ltb a b ≡ false → bytes_ltb b c ≡ false → bytes_ltb a c ≡ false
unfolding bytes_ltb
bytes_ltb_cotrans a b [] h k = refl
bytes_ltb_cotrans a [] (z ∷ c) h k = cc
bytes_ltb_cotrans [] (y ∷ b) (z ∷ c) h k = cc
bytes_ltb_cotrans (x ∷ a) (y ∷ b) (z ∷ c) h k = ground (arith, bytes_ltb_cotrans a b c)

bytes_ltb_irrefl : (a : Bytes) → bytes_ltb a a ≡ false
unfolding bytes_ltb
bytes_ltb_irrefl [] = refl
bytes_ltb_irrefl (x ∷ a) = ground (arith, bytes_ltb_irrefl a)

-- Of two texts neither of which comes first, both are the same.
bytes_ltb_total : (a b : Bytes) → bytes_ltb a b ≡ false → bytes_ltb b a ≡ false → a ≡ b
unfolding bytes_ltb
bytes_ltb_total [] [] h k = refl
bytes_ltb_total [] (y ∷ b) h k = cc
bytes_ltb_total (x ∷ a) [] h k = cc
bytes_ltb_total (x ∷ a) (y ∷ b) h k = ground (arith, bytes_ltb_total a b)

beats_irrefl : (c : Candidate) → beats c c ≡ false
unfolding beats
beats_irrefl c = ground (arith, bytes_ltb_irrefl c.node)

bytes_ltb_asym : (a b : Bytes) → bytes_ltb a b ≡ true → bytes_ltb b a ≡ false
unfolding bytes_ltb
bytes_ltb_asym a [] h = cc
bytes_ltb_asym [] (y ∷ b) h = refl
bytes_ltb_asym (x ∷ a) (y ∷ b) h = ground (arith, bytes_ltb_asym a b)

beats_asym : (a b : Candidate) → beats a b ≡ true → beats b a ≡ false
unfolding beats
beats_asym a b h = ground (arith, bytes_ltb_asym a.node b.node)

beats_cotrans : (a b c : Candidate) → beats a b ≡ false → beats b c ≡ false → beats a c ≡ false
unfolding beats
beats_cotrans a b c h k = ground (arith, bytes_ltb_cotrans a.node b.node c.node)

pub beats_total :
    (a b : Candidate)
    → beats a b ≡ false
    → beats b a ≡ false
    → (a.specificity ≡ b.specificity) × (a.has_affinity ≡ b.has_affinity) × (a.node ≡ b.node)
unfolding beats
beats_total a b h k = ground (arith, bytes_ltb_total a.node b.node)

-- Both loops as one, over the list of candidates.
unfoldable pub pick : List Candidate → Option Candidate → Option Candidate
pick [] best = best
pick (c ∷ cs) best = pick cs (challenge c best)

-- A member of the list that no member beats.
pub record IsTop (cs : List Candidate) (r : Candidate) : Type 0 where
  pub member : In r cs
  pub unbeaten : (c : Candidate) → In c cs → beats c r ≡ false

pub pick-IsTop :
    (cs : List Candidate) (b : Candidate)
    → (r : Candidate) × (pick cs (some b) ≡ some r) × IsTop (b ∷ cs) r
unfolding pick challenge
pick-IsTop [] b = (b, refl, record { member = inl refl; unbeaten = alone })
  where
    alone : (c : Candidate) → In c (b ∷ []) → beats c b ≡ false
    alone c (inl e) = rw e (beats_irrefl b)
    alone c (inr e) = elim e [ ]
pick-IsTop (c ∷ cs) b = elim (Bool-cases (beats c b)) [
  | inl wins ↦
      let (r, e, top) = pick-IsTop cs c in
      (
        r,
        rw wins e,
        record {
          member = inr top.member;
          unbeaten = λ d. elim [
            | inl h ↦ rw h (beats_cotrans b c r (beats_asym c b wins) (top.unbeaten c (inl refl)))
            | inr h ↦ top.unbeaten d h
          ];
        },
      )
  | inr loses ↦
      let (r, e, top) = pick-IsTop cs b in
      (
        r,
        rw loses e,
        record {
          member = elim top.member [ inl h ↦ inl h | inr h ↦ inr (inr h) ];
          unbeaten = λ d. elim [
            | inl h ↦ top.unbeaten d (inl h)
            | inr (inl h) ↦ rw h (beats_cotrans c b r loses (top.unbeaten b (inl refl)))
            | inr (inr h) ↦ top.unbeaten d (inr h)
          ];
        },
      )
]
