-- ===== src/Turn/Answered.antt =====
-- Every tool call that the model is shown has its result right after it
-- (crates/gateway/src/runtime/turn.rs).
use serial_agent.Prelude.{
  ℕ, suc, ◌≡◌, inl, inr, refl, sym, ap, ◌∙◌, Bool, true, false, Option, none, some, List, [], ◌∷◌,
  ◌++◌, Bytes, bytes_beq_iff, bytes_eq, ◌==◌, map, length, arith, eqb, Bool-cases, if◌then◌else◌,
}
use mathlib.Core.List.{append_assoc, append-nil}
use serial_agent.Strings.{is_empty}
use serial_agent.Runs.{RunStatus}
use serial_agent.Turn.{
  Turn, ToolCall, assistant, Message, MessageContent, text, parts, ContentPart, text_part, tool_use,
  tool_result_part, image, send, persist_transcript, update, checked, timed, tool_result,
  build_assistant_tool_message, use_of,
}
use serial_agent.Turn.Stream.{
  Received, event, broken, StreamEvent, thinking, token, tool_call_started, tool_call_delta,
  tool_call_finished, done, error, Streamed, consume, unless_error, take_event, forward, finished,
  cancelled_, errored, failed_with, nothing_yet, all_calls, Consumed,
}
use serial_agent.Turn.Nodes.{World, Response, refused, stream, start_node, end_node}
use serial_agent.Turn.Loop.{
  Progress, going, returned, raised, start_tools, begin_tool, begin_round, finish_tools,
  finish_tool, run_tools, iteration, at_limit, dispatched, answer_or_run, after_stream,
  with_response, counted, llm_ended,
}

-- The calls that are open after a part of a message; a result must be that of the first one.
abbrev pub after_part : ContentPart → List Bytes → Option (List Bytes)
after_part (text_part s) open_ = some open_
after_part (image s) open_ = some open_
after_part (tool_use id name input) open_ = some (open_ ++ id ∷ [])
after_part (tool_result_part id content is_error) [] = none
after_part (tool_result_part id content is_error) (first ∷ open_) =
    if id == first then some open_ else none

infixl 20 ◌>>=◌
abbrev pub ◌>>=◌ : {A B : Type 0} → Option A → (A → Option B) → Option B
none >>= next = none
some a >>= next = next a

abbrev pub after_parts : List ContentPart → List Bytes → Option (List Bytes)
after_parts [] open_ = some open_
after_parts (p ∷ ps) open_ = after_part p open_ >>= after_parts ps

-- A plain message may only stand where no call is open.
abbrev pub after_message : MessageContent → List Bytes → Option (List Bytes)
after_message (text s) [] = some []
after_message (text s) (first ∷ open_) = none
after_message (parts ps) open_ = after_parts ps open_

abbrev pub settle : List Message → List Bytes → Option (List Bytes)
settle [] open_ = some open_
settle (m ∷ messages) open_ = after_message m.content open_ >>= settle messages

-- All calls have their results.
abbrev pub AreAnswered : List Message → Type 0
AreAnswered messages = settle messages [] ≡ some []

bind-settle :
    (o : Option (List Bytes)) (f g h : List Bytes → Option (List Bytes))
    → ((open_ : List Bytes) → f open_ ≡ g open_ >>= h)
    → o >>= f ≡ (o >>= g) >>= h
bind-settle none f g h same = refl
bind-settle (some open_) f g h same = same open_

settle-append :
    (messages more : List Message) (open_ : List Bytes)
    → settle (messages ++ more) open_ ≡ settle messages open_ >>= settle more
settle-append [] more open_ = refl
settle-append (m ∷ messages) more open_ =
    bind-settle (after_message m.content open_) (settle (messages ++ more)) (settle messages)
      (settle more) (settle-append messages more)

abbrev pub ids : List ToolCall → List Bytes
ids = map (λ tc. tc.call_id)

after_parts-uses :
    (calls : List ToolCall) (open_ : List Bytes)
    → after_parts (map use_of calls) open_ ≡ some (open_ ++ ids calls)
after_parts-uses [] open_ = ap some (sym (append-nil open_))
after_parts-uses (tc ∷ calls) open_ =
    after_parts-uses calls (open_ ++ tc.call_id ∷ [])
    ∙ ap some (append_assoc open_ (tc.call_id ∷ []) (ids calls))

settle-asking :
    (said : Bytes) (calls : List ToolCall)
    → settle (build_assistant_tool_message said calls ∷ []) [] ≡ some (ids calls)
unfolding build_assistant_tool_message
settle-asking said calls = elim (Bool-cases (is_empty said)) [
  | inl e ↦ rw (e, after_parts-uses calls []) refl
  | inr e ↦ rw (e, after_parts-uses calls []) refl
]

module _ (w : World) where
  finish_tools-AreAnswered :
      (calls : List ToolCall) (infos : List (ℕ × ℕ)) (t : Turn)
      → length infos ≡ length calls
      → settle t.messages [] ≡ some (ids calls)
      → AreAnswered (finish_tools w calls infos t).messages
  unfolding finish_tools finish_tool end_node update timed send persist_transcript tool_result
  finish_tools-AreAnswered [] infos t all open_ = open_
  finish_tools-AreAnswered (tc ∷ calls) [] t all open_ = absurd (omega (arith, all))
  finish_tools-AreAnswered (tc ∷ calls) (info ∷ infos) t all open_ =
      let answer = tool_result tc.call_id (w.dispatch_tool info.0 tc.tool_name tc.arguments).0 in
      let same : (tc.call_id == tc.call_id) ≡ true =
        ground (arith, bytes_beq_iff tc.call_id tc.call_id) in
      finish_tools-AreAnswered calls infos (finish_tool w tc info t) (omega (arith, all)) (
        settle-append t.messages (answer ∷ []) []
        ∙ ap (λ o. o >>= settle (answer ∷ [])) open_
        ∙ rw same refl)

  -- What begins the calls, with a node for each.
  abbrev Begun : List ToolCall → Turn → Bool × Turn × List (ℕ × ℕ) → Type 0
  Begun calls t (stop, u, infos) =
      (u.messages ≡ t.messages) × (stop ≡ false → length infos ≡ length calls)

  start_tools-Begun : (calls : List ToolCall) (t : Turn) → Begun calls t (start_tools w calls t)
  unfolding start_tools begin_tool start_node checked send update timed
  start_tools-Begun [] t = (refl, λ e. refl)
  start_tools-Begun (tc ∷ calls) t =
      let (same, all) = start_tools-Begun calls (begin_tool w tc (checked t)) in
      elim (Bool-cases (w.is_cancelled t.checks)) [
        | inl stop ↦ rw stop (refl, λ e. absurd (ground (arith, e)))
        | inr on ↦ rw on (same, λ e. ap suc (all e))
      ]

  abbrev messages_after : Consumed w.is_cancelled → List Message
  messages_after (reading, t, s) = t.messages

  forward-messages : (e : StreamEvent) (t : Turn) → (forward e t).messages ≡ t.messages
  unfolding forward send
  forward-messages (thinking said) t = refl
  forward-messages (token said) t = refl
  forward-messages (tool_call_started i n) t = refl
  forward-messages (tool_call_delta i d) t = refl
  forward-messages (tool_call_finished i n a) t = refl
  forward-messages (done u f) t = refl
  forward-messages (error m) t = refl

  unless_error-messages :
      (e : StreamEvent) (messages : List Message) (ended rest : Consumed w.is_cancelled)
      → messages_after ended ≡ messages
      → messages_after rest ≡ messages
      → messages_after (unless_error w.is_cancelled e ended rest) ≡ messages
  unless_error-messages (error m) messages ended rest h k = h
  unless_error-messages (thinking said) messages ended rest h k = k
  unless_error-messages (token said) messages ended rest h k = k
  unless_error-messages (tool_call_started i n) messages ended rest h k = k
  unless_error-messages (tool_call_delta i d) messages ended rest h k = k
  unless_error-messages (tool_call_finished i n a) messages ended rest h k = k
  unless_error-messages (done u f) messages ended rest h k = k

  consume-messages :
      (events : List Received) (t : Turn) (s : Streamed)
      → messages_after (consume w.is_cancelled events t s) ≡ t.messages
  unfolding consume checked
  consume-messages [] t s = refl
  consume-messages (broken m ∷ more) t s = elim (Bool-cases (w.is_cancelled t.checks)) [
    | inl stop ↦ rw stop refl
    | inr on ↦ rw on refl
  ]
  consume-messages (event e ∷ more) t s =
      let u = forward e (checked t) in
      let sent_on = forward-messages e (checked t) in
      let kept =
        unless_error-messages e t.messages (errored, u, s)
          (consume w.is_cancelled more u (take_event e s)) sent_on
          (consume-messages more u (take_event e s) ∙ sent_on) in
      elim (Bool-cases (w.is_cancelled t.checks)) [ inl stop ↦ rw stop refl | inr on ↦ rw on kept ]

  -- A round that goes on leaves all calls answered.
  abbrev pub GoesAnswered : Progress → Type 0
  GoesAnswered (going t) = AreAnswered t.messages
  GoesAnswered (returned t) = Unit
  GoesAnswered (raised m t) = Unit

  at_limit-messages : (loop_idx : ℕ) (t : Turn) → (at_limit w loop_idx t).messages ≡ t.messages
  unfolding send
  at_limit-messages loop_idx t = elim (Bool-cases (eqb loop_idx 24)) [
    | inl last ↦ rw last refl
    | inr more ↦ rw more refl
  ]

  dispatched-GoesAnswered :
      (loop_idx : ℕ) (said : Bytes) (calls : List ToolCall) (t : Turn)
      (r : Bool × Turn × List (ℕ × ℕ))
      → Begun calls t r
      → settle t.messages [] ≡ some (ids calls)
      → GoesAnswered (dispatched w loop_idx said calls r)
  unfolding checked
  dispatched-GoesAnswered loop_idx said calls t (true, u, infos) begun_ open_ = tt
  dispatched-GoesAnswered loop_idx said calls t (false, u, infos) (same, all) open_ =
      let done_ =
        finish_tools-AreAnswered calls infos (checked u) (all refl)
          (ap (λ messages. settle messages []) same ∙ open_) in
      elim (Bool-cases (w.is_cancelled u.checks)) [
        | inl stop ↦ rw stop tt
        | inr on ↦ rw on (
            ap (λ messages. settle messages [])
              (at_limit-messages loop_idx (finish_tools w calls infos (checked u)))
            ∙ done_)
      ]

  answer_or_run-GoesAnswered :
      (loop_idx : ℕ) (said : Bytes) (calls : List ToolCall) (t : Turn)
      → AreAnswered t.messages
      → GoesAnswered (answer_or_run w loop_idx said calls t)
  unfolding run_tools persist_transcript
  answer_or_run-GoesAnswered loop_idx said [] t h = tt
  answer_or_run-GoesAnswered loop_idx said (tc ∷ calls) t h =
      let asking = build_assistant_tool_message said (tc ∷ calls) in
      let u =
        persist_transcript assistant said (record t { messages = t.messages ++ asking ∷ [] }) in
      dispatched-GoesAnswered loop_idx said (tc ∷ calls) u (start_tools w (tc ∷ calls) u)
        (start_tools-Begun (tc ∷ calls) u)
        (settle-append t.messages (asking ∷ []) []
          ∙ ap (λ o. o >>= settle (asking ∷ [])) h
          ∙ settle-asking said (tc ∷ calls))

  after_stream-GoesAnswered :
      (loop_idx node_id started : ℕ) (r : Consumed w.is_cancelled)
      → AreAnswered (messages_after r)
      → GoesAnswered (after_stream w loop_idx node_id started r)
  unfolding end_node update timed
  after_stream-GoesAnswered loop_idx node_id started (failed_with m, t, s) h = tt
  after_stream-GoesAnswered loop_idx node_id started (errored, t, s) h = tt
  after_stream-GoesAnswered loop_idx node_id started (cancelled_, t, s) h = tt
  after_stream-GoesAnswered loop_idx node_id started (finished, t, s) h =
      answer_or_run-GoesAnswered loop_idx s.text_buf (all_calls w.from_str s)
        (counted w s.turn_usage (end_node w node_id started (llm_ended w RunStatus.completed s) t))
        h

  with_response-GoesAnswered :
      (loop_idx node_id started : ℕ) (r : Response) (t : Turn)
      → AreAnswered t.messages
      → GoesAnswered (with_response w loop_idx node_id started r t)
  with_response-GoesAnswered loop_idx node_id started (refused m) t h = tt
  with_response-GoesAnswered loop_idx node_id started (stream events) t h =
      after_stream-GoesAnswered loop_idx node_id started
        (consume w.is_cancelled events t nothing_yet)
        (ap (λ messages. settle messages []) (consume-messages events t nothing_yet) ∙ h)

  -- Where each tool call in the messages has its result right after it, in the order of the calls,
  -- that is so again in the messages of the next round, whatever the model answers.
  pub iteration-GoesAnswered :
      (loop_idx : ℕ) (t : Turn) → AreAnswered t.messages → GoesAnswered (iteration w loop_idx t)
  unfolding iteration begin_round start_node checked update timed
  iteration-GoesAnswered loop_idx t h =
      let began = begin_round w loop_idx (checked t) in
      elim (Bool-cases (w.is_cancelled t.checks)) [
        | inl stop ↦ rw stop tt
        | inr on ↦ rw on (
            with_response-GoesAnswered loop_idx began.node_seq (w.clock t.reads)
              (w.chat_stream loop_idx began.messages) began h)
      ]
