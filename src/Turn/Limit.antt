-- ===== src/Turn/Limit.antt =====
-- A turn whose model asks for a tool every time (crates/gateway/src/runtime/turn.rs).
use serial_agent.Prelude.{
  ℕ, zero, suc, ◌+◌, ◌≡◌, ◌⊎◌, inl, inr, refl, ap, ◌∙◌, Bool, true, false, none, List, [], ◌∷◌,
  Bytes, bytes_eq, arith, Never, All,
}
use serial_agent.Runs.{Run, RunStatus}
use serial_agent.Turn.{Turn, Message, ToolCall, error_event, user, checked, persist_transcript}
use serial_agent.Turn.Stream.{
  StreamEvent, thinking, token, tool_call_started, tool_call_delta, tool_call_finished, done, error,
  Received, event, broken, Streamed, consume, take_event, forward, finished, errored, nothing_yet,
  Consumed, unless_error, all_calls,
}
use serial_agent.Turn.Asking.{
  IsPlain, HasCall, AsksForTool, NonEmpty, Pending, take_event-Pending, Pending-all_calls,
}
use serial_agent.Turn.Nodes.{World, Response, end_node}
use serial_agent.Turn.Loop.{
  Progress, going, returned, raised, start_tools, begin_tool, begin_round, run_tools, iteration,
  tool_loop, close, run_turn, prepared, begun, dispatched, counted, llm_ended, after_stream,
  with_response, from_prepared, answer_or_run,
}
use serial_agent.Turn.Endings.{IsOpen, LastIs}
use serial_agent.Turn.Closing.{iteration-Fine, Fine}

abbrev is_going : Progress → Bool
is_going (going t) = true
is_going _ = false

module _ (w : World) (never : (n : ℕ) → w.is_cancelled n ≡ false) where
  start_tools-goes :
      (calls : List ToolCall) (t : Turn)
      → (u : Turn) × ((infos : List (ℕ × ℕ)) × (start_tools w calls t ≡ (false, u, infos)))
  unfolding start_tools
  start_tools-goes [] t = (t, ([], refl))
  start_tools-goes (tc ∷ calls) t =
      let (u, (infos, e)) = start_tools-goes calls (begin_tool w tc (checked t)) in
      (u, ((t.node_seq + 1, w.clock t.reads) ∷ infos, rw (never t.checks, e) refl))

  run_tools-goes :
      (loop_idx : ℕ) (text : Bytes) (calls : List ToolCall) (t : Turn)
      → is_going (run_tools w loop_idx text calls t) ≡ true
  unfolding run_tools
  run_tools-goes loop_idx text calls t =
      let (u, (infos, e)) = start_tools-goes calls _ in
      ap (λ r. is_going (dispatched w loop_idx text calls r)) e ∙ rw (never u.checks) refl

  unless_error-plain :
      (e : StreamEvent) (ended rest : Consumed w.is_cancelled)
      → IsPlain (event e)
      → unless_error w.is_cancelled e ended rest ≡ rest
  unless_error-plain (thinking said) ended rest h = refl
  unless_error-plain (token said) ended rest h = refl
  unless_error-plain (tool_call_started id name) ended rest h = refl
  unless_error-plain (tool_call_delta id delta) ended rest h = refl
  unless_error-plain (tool_call_finished id name arguments) ended rest h = refl
  unless_error-plain (done usage reason) ended rest h = refl
  unless_error-plain (error message) ended rest h = elim h [ ]

  -- A stream that is read to its end, with a call in what it leaves.
  abbrev Whole : Consumed w.is_cancelled → Type 0
  Whole r = (u : Turn) × (s : Streamed) × (r ≡ (finished, u, s)) × Pending s

  consume-Whole :
      (events : List Received) (t : Turn) (s : Streamed)
      → All IsPlain events
      → Pending s ⊎ HasCall events
      → Whole (consume w.is_cancelled events t s)
  unfolding consume
  consume-Whole [] t s plain (inl h) = (t, s, refl, h)
  consume-Whole [] t s plain (inr h) = elim h [ ]
  consume-Whole (broken message ∷ events) t s plain h = elim plain.0 [ ]
  consume-Whole (event e ∷ events) t s plain h =
      let later : Pending (take_event e s) ⊎ HasCall events = elim h [
        | inl p ↦ inl (take_event-Pending e s (inl p))
        | inr (inl c) ↦ inl (take_event-Pending e s (inr c))
        | inr (inr m) ↦ inr m
      ] in
      let (u, s', e', p) =
        consume-Whole events (forward e (checked t)) (take_event e s) plain.1 later in
      (
        u,
        s',
        rw (never t.checks)
            (unless_error-plain e (errored, forward e (checked t), s) _ plain.0 ∙ e'),
        p,
      )

  answer_or_run-goes :
      (loop_idx : ℕ) (text : Bytes) (calls : List ToolCall) (t : Turn)
      → NonEmpty calls
      → is_going (answer_or_run w loop_idx text calls t) ≡ true
  answer_or_run-goes loop_idx text [] t h = elim h [ ]
  answer_or_run-goes loop_idx text (tc ∷ calls) t h = run_tools-goes loop_idx text (tc ∷ calls) t

  with_response-goes :
      (r : Response) (loop_idx node_id started : ℕ) (t : Turn)
      → AsksForTool r
      → is_going (with_response w loop_idx node_id started r t) ≡ true
  with_response-goes r loop_idx node_id started t asks =
      let (u, s, e, p) = consume-Whole asks.events t nothing_yet asks.plain (inr asks.calls) in
      ap (λ r. is_going (with_response w loop_idx node_id started r t)) asks.streams
      ∙ ap (λ r. is_going (after_stream w loop_idx node_id started r)) e
      ∙ answer_or_run-goes loop_idx s.text_buf (all_calls w.from_str s)
          (counted w s.turn_usage
            (end_node w node_id started (llm_ended w RunStatus.completed s) u))
          (Pending-all_calls w.from_str s p)

  iteration-goes :
      (loop_idx : ℕ) (t : Turn)
      → ((messages : List Message) → AsksForTool (w.chat_stream loop_idx messages))
      → is_going (iteration w loop_idx t) ≡ true
  unfolding iteration
  iteration-goes loop_idx t answers =
      let began = begin_round w loop_idx (checked t) in
      rw (never t.checks) (
        with_response-goes (w.chat_stream loop_idx began.messages) loop_idx began.node_seq
          (w.clock t.reads) began (answers began.messages))

  -- What holds once the last round has gone on.
  abbrev Spent : Turn → Type 0
  Spent t = ((m : Bytes) × LastIs (error_event m) t) × (t.run.loop_count ≡ 25)

  abbrev AtLimit : Progress → Type 0
  AtLimit (going t) = Never
  AtLimit (returned t) = IsOpen t × Spent t
  AtLimit (raised m t) = Never

  next-AtLimit :
      (fuel loop_idx : ℕ) (p : Progress)
      → ((u : Turn)
          → IsOpen u
          → (loop_idx ≡ 24 → Spent u)
          → AtLimit (tool_loop w fuel (loop_idx + 1) u))
      → Fine w loop_idx p
      → is_going p ≡ true
      → AtLimit (elim p [
        | going u ↦ tool_loop w fuel (loop_idx + 1) u
        | returned u ↦ returned u
        | raised message u ↦ raised message u
      ])
  next-AtLimit fuel loop_idx (going u) more (open_, last, count) goes =
      more u open_ (λ e. (last e, count ∙ ap (λ n. n + 1) e))
  next-AtLimit fuel loop_idx (returned u) more h goes = absurd (ground (arith, goes))
  next-AtLimit fuel loop_idx (raised m u) more h goes = absurd (ground (arith, goes))

  module _
      (answers : (n : ℕ) (messages : List Message) → AsksForTool (w.chat_stream n messages)) where
    tool_loop-AtLimit :
        (fuel loop_idx : ℕ) (t : Turn)
        → fuel + loop_idx ≡ 25
        → IsOpen t
        → (fuel ≡ 0 → Spent t)
        → AtLimit (tool_loop w fuel loop_idx t)
    unfolding tool_loop
    tool_loop-AtLimit zero loop_idx t total open_ last = (open_, last refl)
    tool_loop-AtLimit (suc fuel) loop_idx t total open_ last =
        next-AtLimit fuel loop_idx (iteration w loop_idx t)
          (λ u open' l.
            tool_loop-AtLimit fuel (loop_idx + 1) u (omega (arith, total)) open'
              (λ e. l (omega (arith, total, e))))
          (iteration-Fine w loop_idx t open_) (iteration-goes loop_idx t (answers loop_idx))

    close-AtLimit : (p : Progress) → AtLimit p → IsOpen (close w p) × Spent (close w p)
    unfolding close
    close-AtLimit (going t) h = elim h [ ]
    close-AtLimit (returned t) h = h
    close-AtLimit (raised m t) h = elim h [ ]

    -- A turn within its quota whose model asks for a tool in each response, with a stream that comes
    -- to its end without an error, and that nobody cancels, ends after its 25 rounds with an error
    -- sent to its caller; its run is left running, and the channel of the run's events stays.
    pub run_turn-limit :
        (messages : List Message) (user_message : Bytes) (r : Run)
        → let t = run_turn w none (prepared messages) user_message r in
          (t.run.loop_count ≡ 25) × IsOpen t × ((m : Bytes) × LastIs (error_event m) t)
    unfolding run_turn persist_transcript
    run_turn-limit messages user_message r =
        let (open_, (last, count)) =
          close-AtLimit (from_prepared w (prepared messages) user_message (begun w r)) (
            tool_loop-AtLimit 25 0
              (persist_transcript user user_message (record (begun w r) { messages = messages }))
              refl (record { status = refl; cleaned = refl; recorded = refl })
              (λ e. absurd (omega (arith, e)))) in
        (count, open_, last)
