-- ===== src/Turn/Closing.antt =====
-- How a turn ends, for its caller and in the record of its run
-- (crates/gateway/src/runtime/turn.rs).
use serial_agent.Prelude.{
  ℕ, zero, suc, ◌+◌, ◌≡◌, ◌∙◌, inl, inr, refl, ap, Bool, true, false, Option, none, some, List, [],
  ◌∷◌, ◌++◌, Bytes, arith, Bool-cases, Never, eqb,
}
use serial_agent.Runs.{Run, RunStatus, finish}
use serial_agent.Turn.{
  Turn, ToolCall, user, stopped_event, error_event, send, persist_transcript, update, checked,
  timed, end_run, handle_cancellation, finalize_run_success,
}
use serial_agent.Turn.Stream.{
  finished, cancelled_, errored, failed_with, nothing_yet, all_calls, Consumed,
}
use serial_agent.Turn.Nodes.{World, Response, refused, stream, start_node, end_node}
use serial_agent.Turn.Loop.{
  Progress, going, returned, raised, start_tools, begin_tool, begin_round, finish_tools,
  finish_tool, run_tools, iteration, tool_loop, close, run_turn, Prepared, prepared, unprepared,
  begun, over_quota, from_prepared, at_limit, limit_note, dispatched, dispatch_note, answer_or_run,
  after_stream, with_response, llm_ended,
}
use serial_agent.Turn.Endings.{
  IsOpen, LastIs, Ended, answered, stopped_, failed_, left_running, Keeps, Keeps-IsOpen,
  StreamKeeps, consume-StreamKeeps,
}

module _ (w : World) where
  abbrev Started : Turn → Bool × Turn × List (ℕ × ℕ) → Type 0
  Started t (stop, u, infos) = Keeps t u

  start_tools-Started : (calls : List ToolCall) (t : Turn) → Started t (start_tools w calls t)
  unfolding start_tools begin_tool start_node checked send update timed
  start_tools-Started [] t = (refl, refl, refl, refl)
  start_tools-Started (tc ∷ calls) t = elim (Bool-cases (w.is_cancelled t.checks)) [
    | inl stop ↦ rw stop (refl, refl, refl, refl)
    | inr on ↦ rw on (start_tools-Started calls _)
  ]

  finish_tools-Keeps :
      (calls : List ToolCall) (infos : List (ℕ × ℕ)) (t : Turn)
      → Keeps t (finish_tools w calls infos t)
  unfolding finish_tools finish_tool end_node update timed send persist_transcript
  finish_tools-Keeps [] infos t = (refl, refl, refl, refl)
  finish_tools-Keeps (tc ∷ calls) [] t = (refl, refl, refl, refl)
  finish_tools-Keeps (tc ∷ calls) (info ∷ infos) t =
      finish_tools-Keeps calls infos (finish_tool w tc info t)

  handle_cancellation-Ended :
      (text note : Bytes) (t : Turn) → IsOpen t → Ended (handle_cancellation w.clock text note t)
  unfolding handle_cancellation end_run finish send persist_transcript
  handle_cancellation-Ended text note t open_ =
      stopped_ text refl refl open_.recorded (t.sent, refl)

  finalize_run_success-Ended :
      (text : Bytes) (t : Turn) → IsOpen t → Ended (finalize_run_success w.clock w.pricing text t)
  unfolding finalize_run_success end_run finish send persist_transcript
  finalize_run_success-Ended text t open_ =
      answered text refl refl (ap (λ l. l ++ t.total_usage ∷ []) open_.recorded) t.sent refl

  -- What one round makes of an open turn; the last one leaves an error as the last event.
  -- A round that goes on has counted itself.
  abbrev pub Fine : ℕ → Progress → Type 0
  Fine loop_idx (going t) =
      IsOpen t
      × (loop_idx ≡ 24 → (m : Bytes) × LastIs (error_event m) t)
      × (t.run.loop_count ≡ loop_idx + 1)
  Fine loop_idx (returned t) = Ended t
  Fine loop_idx (raised m t) = IsOpen t

  at_limit-Fine :
      (loop_idx : ℕ) (t : Turn)
      → IsOpen t
      → t.run.loop_count ≡ loop_idx + 1
      → Fine loop_idx (going (at_limit w loop_idx t))
  unfolding send
  at_limit-Fine loop_idx t open_ count = elim (Bool-cases (eqb loop_idx 24)) [
    | inl last ↦ rw last (
      record { status = open_.status; cleaned = open_.cleaned; recorded = open_.recorded },
      λ e. (limit_note w, (t.sent, refl)),
      count,
    )
    | inr more ↦ rw more (open_, λ e. absurd (ground (arith, more, e)), count)
  ]

  dispatched-Fine :
      (loop_idx : ℕ) (text : Bytes) (calls : List ToolCall) (t : Turn)
      (r : Bool × Turn × List (ℕ × ℕ))
      → IsOpen t
      → t.run.loop_count ≡ loop_idx + 1
      → Started t r
      → Fine loop_idx (dispatched w loop_idx text calls r)
  unfolding checked
  dispatched-Fine loop_idx text calls t (true, u, infos) open_ count kept =
      handle_cancellation-Ended text (dispatch_note w) u (Keeps-IsOpen t u kept open_)
  dispatched-Fine loop_idx text calls t (false, u, infos) open_ count kept =
      let open' : IsOpen (checked u) = Keeps-IsOpen t (checked u) kept open_ in
      elim (Bool-cases (w.is_cancelled u.checks)) [
        | inl stop ↦ rw stop (handle_cancellation-Ended text (dispatch_note w) (checked u) open')
        | inr on ↦ rw on (
            at_limit-Fine loop_idx (finish_tools w calls infos (checked u))
              (Keeps-IsOpen (checked u) _ (finish_tools-Keeps calls infos (checked u)) open')
              ((finish_tools-Keeps calls infos (checked u)).3 ∙ kept.3 ∙ count))
      ]

  answer_or_run-Fine :
      (loop_idx : ℕ) (text : Bytes) (calls : List ToolCall) (t : Turn)
      → IsOpen t
      → t.run.loop_count ≡ loop_idx + 1
      → Fine loop_idx (answer_or_run w loop_idx text calls t)
  unfolding run_tools persist_transcript
  answer_or_run-Fine loop_idx text [] t open_ count = finalize_run_success-Ended text t open_
  answer_or_run-Fine loop_idx text (tc ∷ calls) t open_ count =
      dispatched-Fine loop_idx text (tc ∷ calls) t _ open_ count
        (start_tools-Started (tc ∷ calls) _)

  after_stream-Fine :
      (loop_idx node_id started : ℕ) (t : Turn) (r : Consumed w.is_cancelled)
      → IsOpen t
      → t.run.loop_count ≡ loop_idx + 1
      → StreamKeeps w.is_cancelled t r
      → Fine loop_idx (after_stream w loop_idx node_id started r)
  unfolding end_node update timed
  after_stream-Fine loop_idx node_id started t (failed_with m, u, s) open_ count kept =
      Keeps-IsOpen t u kept open_
  after_stream-Fine loop_idx node_id started t (errored, u, s) open_ count (kept, (m, last)) =
      left_running (error_event m) (inr (m, refl)) (Keeps-IsOpen t u kept open_) last
  after_stream-Fine loop_idx node_id started t (cancelled_, u, s) open_ count kept =
      handle_cancellation-Ended s.text_buf []
        (end_node w node_id started (llm_ended w RunStatus.stopped s) u)
        (Keeps-IsOpen t _ kept open_)
  after_stream-Fine loop_idx node_id started t (finished, u, s) open_ count kept =
      answer_or_run-Fine loop_idx s.text_buf (all_calls w.from_str s) _
        (Keeps-IsOpen t _ kept open_) (kept.3 ∙ count)

  with_response-Fine :
      (loop_idx node_id started : ℕ) (r : Response) (t : Turn)
      → IsOpen t
      → t.run.loop_count ≡ loop_idx + 1
      → Fine loop_idx (with_response w loop_idx node_id started r t)
  with_response-Fine loop_idx node_id started (refused m) t open_ count = open_
  with_response-Fine loop_idx node_id started (stream events) t open_ count =
      after_stream-Fine loop_idx node_id started t _ open_ count
        (consume-StreamKeeps w.is_cancelled events t nothing_yet)

  pub iteration-Fine : (loop_idx : ℕ) (t : Turn) → IsOpen t → Fine loop_idx (iteration w loop_idx t)
  unfolding iteration begin_round start_node checked update timed send persist_transcript
  iteration-Fine loop_idx t open_ = elim (Bool-cases (w.is_cancelled t.checks)) [
    | inl stop ↦ rw stop (
        left_running (stopped_event []) (inl refl)
          (record { status = open_.status; cleaned = open_.cleaned; recorded = open_.recorded })
          (t.sent, refl))
    | inr on ↦ rw on (
        with_response-Fine loop_idx _ (w.clock t.reads) _ _
          (record { status = open_.status; cleaned = open_.cleaned; recorded = open_.recorded })
          refl)
  ]

  -- The loop ends after its fuel, with an error sent on.
  abbrev Over : Progress → Type 0
  Over (going t) = Never
  Over (returned t) = Ended t
  Over (raised m t) = IsOpen t

  next-Over :
      (fuel loop_idx : ℕ) (p : Progress)
      → ((u : Turn)
          → IsOpen u
          → (loop_idx ≡ 24 → (m : Bytes) × LastIs (error_event m) u)
          → Over (tool_loop w fuel (loop_idx + 1) u))
      → Fine loop_idx p
      → Over (elim p [
        | going u ↦ tool_loop w fuel (loop_idx + 1) u
        | returned u ↦ returned u
        | raised message u ↦ raised message u
      ])
  next-Over fuel loop_idx (going u) more (open_, last, count) = more u open_ last
  next-Over fuel loop_idx (returned u) more h = h
  next-Over fuel loop_idx (raised m u) more h = h

  tool_loop-Over :
      (fuel loop_idx : ℕ) (t : Turn)
      → fuel + loop_idx ≡ 25
      → IsOpen t
      → (fuel ≡ 0 → (m : Bytes) × LastIs (error_event m) t)
      → Over (tool_loop w fuel loop_idx t)
  unfolding tool_loop
  tool_loop-Over zero loop_idx t total open_ last =
      let (m, l) = last refl in left_running (error_event m) (inr (m, refl)) open_ l
  tool_loop-Over (suc fuel) loop_idx t total open_ last =
      next-Over fuel loop_idx (iteration w loop_idx t)
        (λ u open' l.
          tool_loop-Over fuel (loop_idx + 1) u (omega (arith, total)) open'
            (λ e. l (omega (arith, total, e))))
        (iteration-Fine loop_idx t open_)

  close-Ended : (p : Progress) → Over p → Ended (close w p)
  unfolding close send end_run finish
  close-Ended (going t) h = elim h [ ]
  close-Ended (returned t) h = h
  close-Ended (raised m t) h = failed_ m refl refl h.recorded (t.sent, refl)

  -- Every turn ends with an event that tells its caller so: with the answer and its usage, which is
  -- recorded once, and the run completed; stopped, and the run stopped; with an error, and the run
  -- failed; or else stopped with no text or with an error, and the run is left running. The channel
  -- of the run's events is let go of in all but the last case.
  pub run_turn-Ended :
      (quota : Option (Bytes × Bytes)) (context : Prepared w) (user_message : Bytes) (r : Run)
      → Ended (run_turn w quota context user_message r)
  unfolding run_turn end_run finish send persist_transcript
  run_turn-Ended (some (kind, m)) context user_message r =
      close-Ended
        (over_quota w (some (kind, m)) (begun w r)
          (from_prepared w context user_message (begun w r)))
        (failed_ m refl refl refl ([], refl))
  run_turn-Ended none (unprepared m) user_message r =
      close-Ended (raised m (begun w r)) (record { status = refl; cleaned = refl; recorded = refl })
  run_turn-Ended none (prepared messages) user_message r =
      close-Ended (from_prepared w (prepared messages) user_message (begun w r)) (
        tool_loop-Over 25 0
          (persist_transcript user user_message (record (begun w r) { messages = messages })) refl
          (record { status = refl; cleaned = refl; recorded = refl })
          (λ e. absurd (omega (arith, e))))
