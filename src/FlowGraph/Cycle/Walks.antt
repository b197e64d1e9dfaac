-- ===== src/FlowGraph/Cycle/Walks.antt =====
-- Walks along a flow's connections, cycles, and nodes from which no infinite walk starts.
use roya_api.Prelude.{String, true, List, Memᴰ, ◌≡◌, includes, string_eq}
use roya_api.FlowGraph.{FlowConnectionPlain}

module _ (node_ids : List String) (connections : List FlowConnectionPlain) where
  -- A connection from `u` to the node `v` of the flow.
  pub record Edge (u v : String) : Type 0 where
    pub connection : FlowConnectionPlain
    pub listed : Memᴰ connection connections
    pub leaves : connection.source.node_id ≡ u
    pub enters : connection.target.node_id ≡ v
    pub known : includes node_ids v ≡ true

  -- A walk to `w`.
  pub data Walk (w : String) : String → Type 0 where
    here : Walk w w
    via : {u v : String} → Edge u v → Walk w v → Walk w u

  pub record Cycle : Type 0 where
    pub last : String
    pub first : String
    pub closing : Edge last first
    pub around : Walk last first

  pub data IsSafe : String → Type 0 where
    safe : {u : String} → ((v : String) → Edge u v → IsSafe v) → IsSafe u

  pub Walk-append : {v w u : String} → Walk v u → Edge v w → Walk w u
  Walk-append here e = via e here
  Walk-append (via d p) e = via d (Walk-append p e)

  pub IsSafe-acyclic : {u v : String} → IsSafe v → Edge u v → Walk u v → ⊥
  IsSafe-acyclic (safe f) e here = IsSafe-acyclic (f _ e) e here
  IsSafe-acyclic (safe f) e (via d p) = IsSafe-acyclic (f _ d) d (Walk-append p e)
