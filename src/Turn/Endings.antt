-- ===== src/Turn/Endings.antt =====
-- The ways in which a turn ends, and what the reading of a response leaves as it is
-- (crates/gateway/src/runtime/turn.rs).
use serial_agent.Prelude.{
  ℕ, ◌≡◌, ◌⊎◌, inl, inr, refl, ◌∙◌, Bool, true, false, List, [], ◌∷◌, ◌++◌, Bytes, Bool-cases,
  if◌then◌else◌,
}
use serial_agent.Runs.{RunStatus}
use serial_agent.Turn.{
  Turn, TurnEvent, final, stopped_event, error_event, usage_event, send, checked,
}
use serial_agent.Turn.Stream.{
  Received, event, broken, StreamEvent, thinking, token, tool_call_started, tool_call_delta,
  tool_call_finished, done, error, Streamed, consume, unless_error, take_event, forward, finished,
  cancelled_, errored, failed_with, Consumed,
}

-- The turn has not ended.
pub record IsOpen (t : Turn) : Type 0 where
  pub status : t.run.status ≡ RunStatus.running
  pub cleaned : t.cleaned ≡ false
  pub recorded : t.recorded ≡ []

abbrev pub LastIs : TurnEvent → Turn → Type 0
LastIs e t = (before : List TurnEvent) × (t.sent ≡ before ++ e ∷ [])

-- The four ways in which a turn may end: answered, stopped, failed, and with its run left running.
pub data Ended (t : Turn) : Type 0 where
  answered :
      (text : Bytes)
      → t.run.status ≡ RunStatus.completed
      → t.cleaned ≡ true
      → t.recorded ≡ t.total_usage ∷ []
      → (before : List TurnEvent)
      → t.sent
        ≡ before
          ++ final text ∷ []
          ++ usage_event t.total_usage.prompt_tokens t.total_usage.completion_tokens
              t.total_usage.total_tokens
            ∷ []
      → Ended t
  stopped_ :
      (text : Bytes)
      → t.run.status ≡ RunStatus.stopped
      → t.cleaned ≡ true
      → t.recorded ≡ []
      → LastIs (stopped_event text) t
      → Ended t
  failed_ :
      (message : Bytes)
      → t.run.status ≡ RunStatus.failed
      → t.cleaned ≡ true
      → t.recorded ≡ []
      → LastIs (error_event message) t
      → Ended t
  left_running :
      (e : TurnEvent)
      → (e ≡ stopped_event []) ⊎ ((message : Bytes) × (e ≡ error_event message))
      → IsOpen t
      → LastIs e t
      → Ended t

-- A step that leaves the run's status and rounds, the channel and the recorded usage as they are.
abbrev pub Keeps : Turn → Turn → Type 0
Keeps t u =
    (u.run.status ≡ t.run.status)
    × (u.cleaned ≡ t.cleaned)
    × (u.recorded ≡ t.recorded)
    × (u.run.loop_count ≡ t.run.loop_count)

pub Keeps-IsOpen : (t u : Turn) → Keeps t u → IsOpen t → IsOpen u
Keeps-IsOpen t u (s, c, r, l) open_ = record {
  status = s ∙ open_.status;
  cleaned = c ∙ open_.cleaned;
  recorded = r ∙ open_.recorded;
}

Keeps-trans : (t u v : Turn) → Keeps t u → Keeps u v → Keeps t v
Keeps-trans t u v (s, c, r, l) (s', c', r', l') = (s' ∙ s, c' ∙ c, r' ∙ r, l' ∙ l)

forward-Keeps : (e : StreamEvent) (t : Turn) → Keeps t (forward e t)
unfolding forward send
forward-Keeps (thinking said) t = (refl, refl, refl, refl)
forward-Keeps (token said) t = (refl, refl, refl, refl)
forward-Keeps (tool_call_started i n) t = (refl, refl, refl, refl)
forward-Keeps (tool_call_delta i d) t = (refl, refl, refl, refl)
forward-Keeps (tool_call_finished i n a) t = (refl, refl, refl, refl)
forward-Keeps (done u f) t = (refl, refl, refl, refl)
forward-Keeps (error m) t = (refl, refl, refl, refl)

-- What the loop over the stream keeps; where it met an error event, that was sent on.
abbrev pub StreamKeeps : (c : ℕ → Bool) → Turn → Consumed c → Type 0
StreamKeeps c t (errored, u, s) = Keeps t u × ((m : Bytes) × LastIs (error_event m) u)
StreamKeeps c t (finished, u, s) = Keeps t u
StreamKeeps c t (cancelled_, u, s) = Keeps t u
StreamKeeps c t (failed_with m, u, s) = Keeps t u

StreamKeeps-trans :
    (c : ℕ → Bool) (t u : Turn) (r : Consumed c) → Keeps t u → StreamKeeps c u r → StreamKeeps c t r
StreamKeeps-trans c t u (errored, v, s) k h = (Keeps-trans t u v k h.0, h.1)
StreamKeeps-trans c t u (finished, v, s) k h = Keeps-trans t u v k h
StreamKeeps-trans c t u (cancelled_, v, s) k h = Keeps-trans t u v k h
StreamKeeps-trans c t u (failed_with m, v, s) k h = Keeps-trans t u v k h

module _ (c : ℕ → Bool) where
  checked-Keeps : (t : Turn) → Keeps t (checked t)
  unfolding checked
  checked-Keeps t = (refl, refl, refl, refl)

  abbrev Flagged : Turn → Streamed → Consumed c → Consumed c
  Flagged t s rest = if c t.checks then (cancelled_, checked t, s) else rest

  Flagged-StreamKeeps :
      (t : Turn) (s : Streamed) (rest : Consumed c)
      → StreamKeeps c t rest
      → StreamKeeps c t (Flagged t s rest)
  Flagged-StreamKeeps t s rest h = elim (Bool-cases (c t.checks)) [
    | inl stop ↦ rw stop (checked-Keeps t)
    | inr on ↦ rw on h
  ]

  unless_error-StreamKeeps :
      (e : StreamEvent) (t : Turn) (s : Streamed) (rest : Consumed c)
      → Keeps t (forward e (checked t))
      → StreamKeeps c t rest
      → StreamKeeps c t (unless_error c e (errored, forward e (checked t), s) rest)
  unfolding forward send
  unless_error-StreamKeeps (error m) t s rest kept h = (kept, (m, ((checked t).sent, refl)))
  unless_error-StreamKeeps (thinking said) t s rest kept h = h
  unless_error-StreamKeeps (token said) t s rest kept h = h
  unless_error-StreamKeeps (tool_call_started i n) t s rest kept h = h
  unless_error-StreamKeeps (tool_call_delta i d) t s rest kept h = h
  unless_error-StreamKeeps (tool_call_finished i n a) t s rest kept h = h
  unless_error-StreamKeeps (done u f) t s rest kept h = h

  pub consume-StreamKeeps :
      (events : List Received) (t : Turn) (s : Streamed) → StreamKeeps c t (consume c events t s)
  unfolding consume
  consume-StreamKeeps [] t s = (refl, refl, refl, refl)
  consume-StreamKeeps (broken m ∷ more) t s =
      Flagged-StreamKeeps t s (failed_with m, checked t, s) (checked-Keeps t)
  consume-StreamKeeps (event e ∷ more) t s =
      let kept =
        Keeps-trans t (checked t) (forward e (checked t)) (checked-Keeps t)
          (forward-Keeps e (checked t)) in
      Flagged-StreamKeeps t s
        (unless_error c e (errored, forward e (checked t), s)
          (consume c more (forward e (checked t)) (take_event e s)))
        (unless_error-StreamKeeps e t s (consume c more (forward e (checked t)) (take_event e s))
          kept
          (StreamKeeps-trans c t (forward e (checked t)) _ kept
            (consume-StreamKeeps more (forward e (checked t)) (take_event e s))))
