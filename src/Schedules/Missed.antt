-- ===== src/Schedules/Missed.antt =====
-- The windows that a schedule missed, in crates/gateway/src/runtime/schedule_runner.rs: how many
-- are counted, and what the skip policy makes of them.
use serial_agent.Prelude.{
  ℕ, zero, suc, ◌+◌, ◌≤◌, ◌<◌, ◌≡◌, refl, sym, subst, ◌⊎◌, inl, inr, Option, none, some, arith,
  Option-cases, Bool-cases, ltb, leb,
}
use serial_agent.Schedules.Runner.{count_windows, missed_window_count}

module _ (next : ℕ → Option ℕ) where
  module _ (now max_catchup : ℕ) where
    count-le :
        (fuel count cursor : ℕ) → count ≤ count_windows next now max_catchup fuel count cursor
    unfolding count_windows
    count-le zero count cursor = omega arith
    count-le (suc fuel) count cursor = elim (Option-cases (next cursor)) [
      | inl e ↦ rw (e, count_windows) (omega arith)
      | inr (w, e) ↦ rw (e, count_windows) (ground (arith, count-le fuel (count + 1) w))
    ]

    le-bound :
        (fuel count cursor : ℕ)
        → count ≤ max_catchup
        → count_windows next now max_catchup fuel count cursor ≤ max_catchup + 1
    unfolding count_windows
    le-bound zero count cursor h = omega arith
    le-bound (suc fuel) count cursor h = elim (Option-cases (next cursor)) [
      | inl e ↦ rw (e, count_windows) (omega arith)
      | inr (w, e) ↦ rw (e, count_windows) (ground (arith, le-bound fuel (count + 1) w))
    ]

    -- More fuel than the loop needs changes nothing.
    fuel-enough :
        (fuel extra count cursor : ℕ)
        → max_catchup + 1 ≤ fuel + count
        → count ≤ max_catchup
        → count_windows next now max_catchup (fuel + extra) count cursor
          ≡ count_windows next now max_catchup fuel count cursor
    unfolding count_windows
    fuel-enough zero extra count cursor enough h = absurd (omega arith)
    fuel-enough (suc fuel) extra count cursor enough h =
        let more : suc fuel + extra ≡ suc (fuel + extra) = omega arith in
        rw more (elim (Option-cases (next cursor)) [
          | inl e ↦ rw (e, count_windows) refl
          | inr (w, e) ↦
              rw (e, count_windows) (ground (arith, fuel-enough fuel extra (count + 1) w))
        ])

  -- The windows after `cursor` and up to `now`, one after the other: there are `n`, and `last` is
  -- the last of them.
  pub data Windows (now : ℕ) : ℕ → ℕ → ℕ → Type 0 where
    here : {cursor : ℕ} → Windows now cursor 0 cursor
    window :
        {cursor n last : ℕ} (w : ℕ)
        → next cursor ≡ some w
        → w ≤ now
        → Windows now w n last
        → Windows now cursor (suc n) last

  abbrev pub NoMore : ℕ → Option ℕ → Type 0
  NoMore now none = Unit
  NoMore now (some w) = now < w

  abbrev Counted : ℕ → ℕ → ℕ → ℕ → ℕ → Type 0
  Counted now max_catchup count cursor total =
      (n : ℕ) × ((last : ℕ) × ((total ≡ count + n)
          × (Windows now cursor n last × ((total ≡ max_catchup + 1) ⊎ NoMore now (next last)))))

  Counted-more :
      (now max_catchup count cursor total w : ℕ)
      → next cursor ≡ some w
      → w ≤ now
      → Counted now max_catchup (count + 1) w total
      → Counted now max_catchup count cursor total
  Counted-more now max_catchup count cursor total w e le (n, (last, (t, (ws, stop)))) =
      (suc n, (last, (omega arith, (window w e le ws, stop))))

  count_windows-Counted :
      (now max_catchup fuel count cursor : ℕ)
      → max_catchup + 1 ≤ fuel + count
      → count ≤ max_catchup
      → Counted now max_catchup count cursor (count_windows next now max_catchup fuel count cursor)
  unfolding count_windows
  count_windows-Counted now max_catchup zero count cursor enough h = absurd (omega arith)
  count_windows-Counted now max_catchup (suc fuel) count cursor enough h =
      elim (Option-cases (next cursor)) [
        | inl e ↦
            rw (e, count_windows)
              (0, (cursor, (omega arith, (here, inr (subst (NoMore now) (sym e) tt)))))
        | inr (w, e) ↦
            rw (e, count_windows)
              (elim (Bool-cases (leb w now)) [
                | inr late ↦ rw late (
                  0,
                  (cursor, (omega arith, (here, inr (subst (NoMore now) (sym e) (ground arith))))),
                )
                | inl on_time ↦ rw on_time (
                    Counted-more now max_catchup count cursor _ w e (ground arith)
                      (elim (Bool-cases (ltb max_catchup (count + 1))) [
                        | inl full ↦ rw full (0, (w, (omega arith, (here, inl (ground arith)))))
                        | inr room ↦ rw room (
                            count_windows-Counted now max_catchup fuel (count + 1) w (omega arith)
                              (ground arith))
                      ]))
              ])
      ]

  count_mono :
      (now later max_catchup fuel count cursor : ℕ)
      → now ≤ later
      → count_windows next now max_catchup fuel count cursor
        ≤ count_windows next later max_catchup fuel count cursor
  unfolding count_windows
  count_mono now later max_catchup zero count cursor h = omega arith
  count_mono now later max_catchup (suc fuel) count cursor h = elim (Option-cases (next cursor)) [
    | inl e ↦ rw (e, count_windows) (omega arith)
    | inr (w, e) ↦
        rw (e, count_windows)
          (ground (
            arith,
            count_mono now later max_catchup fuel (count + 1) w,
            count-le later max_catchup fuel (count + 1) w,
          ))
  ]

  -- At a later time at least as many windows are missed.
  pub missed_window_count_mono :
      (last_run_at : Option ℕ) (now later max_catchup : ℕ)
      → now ≤ later
      → missed_window_count next last_run_at now max_catchup
        ≤ missed_window_count next last_run_at later max_catchup
  unfolding missed_window_count
  missed_window_count_mono none now later max_catchup h = omega arith
  missed_window_count_mono (some anchor) now later max_catchup h =
      count_mono now later max_catchup (max_catchup + 1) 0 anchor h

-- A window that is past is missed.
pub missed_window_count-pos :
    (next : ℕ → Option ℕ) (anchor w now max_catchup : ℕ)
    → next anchor ≡ some w
    → w ≤ now
    → 1 ≤ missed_window_count next (some anchor) now max_catchup
unfolding missed_window_count count_windows
missed_window_count-pos next anchor w now max_catchup e past =
    let rounds : max_catchup + 1 ≡ suc max_catchup = omega arith in
    rw (rounds, e, count_windows) (ground (arith, count-le next now max_catchup max_catchup 1 w))

-- The count of a schedule that ran is that of the windows from the last run up to now, one after
-- the other, until there is none or the count has passed the cap; the loop ends after at most
-- one round more than the cap, for more rounds give the same count.
pub missed_window_count_lem :
    (next : ℕ → Option ℕ) (anchor now max_catchup extra : ℕ)
    → let missed = missed_window_count next (some anchor) now max_catchup in
      (missed ≤ max_catchup + 1)
      × ((count_windows next now max_catchup (max_catchup + 1 + extra) 0 anchor ≡ missed)
          × ((last : ℕ) × (Windows next now anchor missed last
                × ((missed ≡ max_catchup + 1) ⊎ NoMore next now (next last)))))
unfolding missed_window_count
missed_window_count_lem next anchor now max_catchup extra =
    let (n, (last, (e, (ws, stop)))) =
      count_windows-Counted next now max_catchup (max_catchup + 1) 0 anchor (omega arith)
        (omega arith) in
    let same : n ≡ count_windows next now max_catchup (max_catchup + 1) 0 anchor =
      omega (arith, e) in
    (
      le-bound next now max_catchup (max_catchup + 1) 0 anchor (omega arith),
      (
        fuel-enough next now max_catchup (max_catchup + 1) extra 0 anchor (omega arith)
            (omega arith),
        (last, (subst (λ k. Windows next now anchor k last) same ws, stop)),
      ),
    )
