-- ===== src/FlowGraph/Cycle.antt =====
-- dynamic-flow-graph.validation.ts, `hasCycle`: depth-first search with three colours. The loop over
-- the connections takes the recursive call as an argument; `none` means that the fuel ran out.
pub mod Walks
pub mod Search
pub mod Decides
use roya_api.Prelude.{
  String, ℕ, zero, suc, Bool, true, false, Option, none, some, List, [], ◌∷◌, not, if◌then◌else◌,
  ◌==◌, string_eq, includes, length,
}
use roya_api.Prelude.Dict.{get, put}
use roya_api.FlowGraph.{FlowConnectionPlain}

pub data Color : Type 0 where
  white gray black : Color

abbrev pub Colors : Type 0
Colors = List (String × Color)

-- Whether a cycle was found, and the colours.
abbrev pub Verdict : Type 0
Verdict = Option (Bool × Colors)

abbrev pub proceed : (Colors → Verdict) → Verdict → Verdict
proceed rest none = none
proceed rest (some (true, color)) = some (true, color)
proceed rest (some (false, color)) = rest color

-- The two tests on the colour of `v`, and what follows.
abbrev pub follow :
    (String → Colors → Verdict) → (Colors → Verdict) → Option Color → String → Colors → Verdict
follow call rest none v color = rest color
follow call rest (some gray) v color = some (true, color)
follow call rest (some white) v color = proceed rest (call v color)
follow call rest (some black) v color = rest color

abbrev pub finish : String → Verdict → Verdict
finish u none = none
finish u (some (true, color)) = some (true, color)
finish u (some (false, color)) = some (false, put u black color)

abbrev pub if_white : Option Color → Verdict → Verdict → Verdict
if_white (some white) now later = now
if_white _ now later = later

-- `for (const n of nodeIds) color.set(n, WHITE)`
pub paint : List String → Colors → Colors
paint [] color = color
paint (n ∷ ns) color = paint ns (put n white color)

module _ (node_ids : List String) (connections : List FlowConnectionPlain) where
  -- The loop of `dfs` over the connections.
  pub scan : (String → Colors → Verdict) → String → List FlowConnectionPlain → Colors → Verdict
  scan call u [] color = some (false, color)
  scan call u (c ∷ cs) color =
      let rest : Colors → Verdict = scan call u cs in
      let v : String = c.target.node_id in
      if not (c.source.node_id == u)
      then rest color
      else if not (includes node_ids v)
      then rest color
      else follow call rest (get v color) v color

  pub dfs : ℕ → String → Colors → Verdict
  dfs zero u color = none
  dfs (suc fuel) u color = finish u (scan (dfs fuel) u connections (put u gray color))

  pub search_from : ℕ → List String → Colors → Verdict
  search_from fuel [] color = some (false, color)
  search_from fuel (n ∷ ns) color =
      let rest : Colors → Verdict = search_from fuel ns in
      if_white (get n color) (proceed rest (dfs fuel n color)) (rest color)

  pub search : Verdict
  search = search_from (length node_ids) node_ids (paint node_ids [])

  abbrev pub found : Verdict → Bool
  found none = false
  found (some (b, _)) = b

  unfoldable pub has_cycle : Bool
  unfolding search search_from dfs scan paint
  has_cycle = found search
