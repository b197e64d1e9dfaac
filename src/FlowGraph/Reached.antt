-- ===== src/FlowGraph/Reached.antt =====
-- dynamic-flow-graph.validation.ts, the breadth-first search of `validateDynamicFlowGraph`: the ids
-- that are reached from the roots. `none` means that the fuel ran out.
pub mod Correct
use roya_api.Prelude.{
  String, ℕ, zero, suc, ◌+◌, Bool, true, false, Option, none, some, List, [], ◌∷◌, ◌++◌,
  if◌then◌else◌, ◌==◌, string_eq, includes, add, length, or_else,
}
use roya_api.FlowGraph.{FlowConnectionPlain}

-- `for (const c of flowConnections) if (c.source.nodeId === u) q.push(c.target.nodeId)`
unfoldable pub push_targets : String → List FlowConnectionPlain → List String → List String
push_targets u [] q = q
push_targets u (c ∷ cs) q =
    push_targets u cs (if c.source.node_id == u then q ++ c.target.node_id ∷ [] else q)

module _ (connections : List FlowConnectionPlain) where
  -- The `while` loop over the queue.
  unfoldable pub visit : ℕ → List String → List String → Option (List String)
  visit fuel [] reached = some reached
  visit zero (u ∷ q) reached = none
  visit (suc fuel) (u ∷ q) reached =
      let skip = visit fuel q reached in
      let expand = visit fuel (push_targets u connections q) (add reached u) in
      if includes reached u then skip else expand

  unfoldable pub reached_from : List String → List String
  unfolding visit push_targets
  reached_from roots = or_else (visit (length roots + length connections) roots []) []
