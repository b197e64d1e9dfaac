-- ===== src/Execution/Order.antt =====
-- analyses/dynamic-flow-execution.service.ts, `topologicalOrder`: Kahn's algorithm. A degree
-- is a natural number: a round takes off one for each connection that was counted.
pub mod Degrees
pub mod Loop
pub mod Start
pub mod Correct
pub mod Once
use roya_api.Prelude.{
  String, ℕ, zero, suc, ◌+◌, ◌-◌, Bool, true, false, not, ◌||◌, Option, none, some, List, [], ◌∷◌,
  ◌++◌, if◌then◌else◌, ◌==◌, string_eq, includes, add, find, filter, length, or_else, is_some, leb,
  ltb, nat_beq,
}
use roya_api.Prelude.Dict.{get, put}
use roya_api.Execution.{SnapshotNode, SnapshotConnection}

abbrev pub Degrees : Type 0
Degrees = List (String × ℕ)

abbrev pub Adjacency : Type 0
Adjacency = List (String × List String)

-- `for (const n of nodes) { inDegree.set(n.nodeId, 0); … }`
pub zero_degrees : List SnapshotNode → Degrees → Degrees
zero_degrees [] deg = deg
zero_degrees (n ∷ ns) deg = zero_degrees ns (put n.node_id 0 deg)

pub no_targets : List SnapshotNode → Adjacency → Adjacency
no_targets [] adj = adj
no_targets (n ∷ ns) adj = no_targets ns (put n.node_id [] adj)

-- `!inDegree.has(c.target.nodeId) || !adj.has(c.source.nodeId)`
abbrev pub dangles : SnapshotConnection → Degrees → Adjacency → Bool
dangles c deg adj =
    not (is_some (get c.target.node_id deg)) || not (is_some (get c.source.node_id adj))

abbrev pub count_target : SnapshotConnection → Degrees → Adjacency → Degrees
count_target c deg adj =
    if dangles c deg adj
    then deg
    else put c.target.node_id (or_else (get c.target.node_id deg) 0 + 1) deg

abbrev pub push_target : SnapshotConnection → Degrees → Adjacency → Adjacency
push_target c deg adj =
    if dangles c deg adj
    then adj
    else put c.source.node_id (or_else (get c.source.node_id adj) [] ++ c.target.node_id ∷ []) adj

-- The loop over the connections.
pub fill : List SnapshotConnection → Degrees × Adjacency → Degrees × Adjacency
fill [] (deg, adj) = (deg, adj)
fill (c ∷ cs) (deg, adj) = fill cs (count_target c deg adj, push_target c deg adj)

-- The ids of degree 0, in the map's order.
pub initially_ready : Degrees → List String
initially_ready [] = []
initially_ready ((k, d) ∷ deg) =
    let rest = initially_ready deg in if nat_beq d 0 then k ∷ rest else rest

-- `for (const next of adj.get(id) ?? [])`: the degrees, and the queue.
pub lower : List String → Degrees → Degrees
lower [] deg = deg
lower (next ∷ ts) deg = lower ts (put next (or_else (get next deg) 0 - 1) deg)

-- `if (d <= 0) ready.push(next)`
pub enqueue : ℕ → String → List String → List String
enqueue d next ready = if leb d 0 then ready ++ next ∷ [] else ready

pub release : List String → Degrees → List String → List String
release [] deg ready = ready
release (next ∷ ts) deg ready =
    let d : ℕ = or_else (get next deg) 0 - 1 in release ts (put next d deg) (enqueue d next ready)

-- What the `while` loop leaves: the nodes, and the ids that it saw.
pub record Sorted : Type 0 where
  pub out : List SnapshotNode
  pub seen : List String

abbrev pub push_found : List SnapshotNode → Option SnapshotNode → List SnapshotNode
push_found out none = out
push_found out (some n) = out ++ n ∷ []

module _ (ns : List SnapshotNode) where
  abbrev pub visit : String → Sorted → Sorted
  visit id s = record {
    out = push_found s.out (find (λ n. n.node_id == id) ns);
    seen = add s.seen id;
  }

  -- The `while` loop; `none` means that the fuel ran out.
  pub drain : Adjacency → ℕ → List String → Degrees → Sorted → Option Sorted
  drain adj fuel [] deg s = some s
  drain adj zero (id ∷ ready) deg s = none
  drain adj (suc fuel) (id ∷ ready) deg s =
      let ts : List String = or_else (get id adj) [] in
      let skip = drain adj fuel ready deg s in
      let expand = drain adj fuel (release ts deg ready) (lower ts deg) (visit id s) in
      if includes s.seen id then skip else expand

-- The nodes that the loop did not see follow in their own order.
pub append_rest : List SnapshotNode → Sorted → List SnapshotNode
append_rest ns s =
    if ltb (length s.out) (length ns)
    then s.out ++ filter (λ n. not (includes s.seen n.node_id)) ns
    else s.out

abbrev pub maps : List SnapshotNode → List SnapshotConnection → Degrees × Adjacency
maps ns cs = fill cs (zero_degrees ns [], no_targets ns [])

pub kahn : List SnapshotNode → List SnapshotConnection → Option Sorted
kahn ns cs =
    let (deg, adj) = maps ns cs in
    drain ns adj (length ns + length cs) (initially_ready deg) deg (record { out = []; seen = [] })

unfoldable pub topological_order : List SnapshotNode → List SnapshotConnection → List SnapshotNode
unfolding kahn drain append_rest release enqueue lower initially_ready fill no_targets zero_degrees
topological_order ns cs = append_rest ns (or_else (kahn ns cs) (record { out = []; seen = [] }))
