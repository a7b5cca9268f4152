-- ===== src/Turn/Nodes.antt =====
-- What is around a turn, and the nodes that it adds to the record of its run
-- (crates/gateway/src/runtime/turn.rs).
use serial_agent.Prelude.{
  ℕ, ◌+◌, ◌-◌, Bool, false, Option, none, some, List, [], ◌∷◌, ◌++◌, if◌then◌else◌, Bytes, eqb,
}
use serial_agent.Runs.{Run, RunNode, RunStatus, NodeKind}
use serial_agent.Turn.{Turn, Usage, Message, update, timed}
use serial_agent.Turn.Stream.{Received}

pub data Response : Type 0 where
  refused : Bytes → Response
  stream : List Received → Response

-- The world around a turn: `chat_stream` is told how many calls came before, and `dispatch_tool` the
-- number of the node of its call, so that equal calls may have different answers. A stream is a
-- finite list of what comes in.
pub record World : Type 0 where
  pub clock : ℕ → ℕ
  pub is_cancelled : ℕ → Bool
  pub chat_stream : ℕ → List Message → Response
  pub dispatch_tool : ℕ → Bytes → Bytes → Bytes × Bool
  pub from_str : Bytes → Option Bytes
  pub pricing : Bytes → Usage → Option ℕ

-- The first node with the id is changed.
unfoldable pub change_node : ℕ → (RunNode → RunNode) → List RunNode → List RunNode
change_node node_id f [] = []
change_node node_id f (n ∷ nodes) =
    if eqb n.node_id node_id then f n ∷ nodes else n ∷ change_node node_id f nodes

abbrev pub node_of : NodeKind → Bytes → Option Bytes → ℕ → ℕ → RunNode
node_of kind name input_preview node_id now = record {
  node_id = node_id;
  kind = kind;
  name = name;
  status = RunStatus.running;
  started_at = now;
  ended_at = none;
  duration_ms = none;
  input_preview = input_preview;
  output_preview = none;
  is_error = false;
  input_tokens = 0;
  output_tokens = 0;
}

module _ (w : World) where
  -- A new node at the end of the run's nodes, numbered by the next number.
  unfoldable pub start_node : NodeKind → Bytes → Option Bytes → (Run → Run) → Turn → Turn
  unfolding update timed
  start_node kind name input_preview f t =
      let node = node_of kind name input_preview (t.node_seq + 1) (w.clock t.reads) in
      update (λ r. record (f r) { nodes = (f r).nodes ++ node ∷ [] })
        (timed (record t { node_seq = t.node_seq + 1 }))

  -- The end of a node that started at `started`.
  unfoldable pub end_node : ℕ → ℕ → (ℕ → RunNode → RunNode) → Turn → Turn
  unfolding update timed change_node
  end_node node_id started f t =
      let now = w.clock t.reads in
      update
        (λ r. record r {
          nodes =
              change_node node_id
                (λ n. f now (record n { ended_at = some now; duration_ms = some (now - started) }))
                r.nodes;
        })
        (timed t)
