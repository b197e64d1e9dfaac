-- ===== src/ReportTypes/Snapshot/Targets.antt =====
-- Lemmas on the adjacency lists of `computeTerminalPaths`.
use roya_api.Prelude.{
  String, Bool, true, false, Option, none, some, List, [], ◌∷◌, ◌++◌, map, append-nil, append_assoc,
  filter, if◌then◌else◌, or_else, includes, ◌==◌, ==_iff, string_eq, ◌≡◌, refl, sym, ap, ◌∙◌, arith,
  inl, inr, Bool-cases,
}
use roya_api.Prelude.Dict.{get, put, get-put}
use roya_api.FlowGraph.{FlowNodePlain, FlowConnectionPlain}
use roya_api.ReportTypes.Snapshot.{Adjacency, no_targets, push_target, push_all, adjacency}

-- The connections whose source is a node of the flow.
abbrev pub known : List FlowNodePlain → List FlowConnectionPlain → List FlowConnectionPlain
known ns cs = filter (λ c. includes (map (λ n. n.node_id) ns) c.source.node_id) cs

-- The targets of the connections of `cs` from `u`, in order.
abbrev pub targets : String → List FlowConnectionPlain → List String
targets u [] = []
targets u (c ∷ cs) =
    let rest = targets u cs in if c.source.node_id == u then c.target.node_id ∷ rest else rest

abbrev appended : Option (List String) → List String → Option (List String)
appended none more = none
appended (some before) more = some (before ++ more)

get-push_all :
    (u : String) (cs : List FlowConnectionPlain) (adj : Adjacency)
    → get u (push_all cs adj) ≡ appended (get u adj) (targets u cs)
unfolding push_all
get-push_all u [] adj = by_entry (get u adj)
  where
    by_entry : (o : Option (List String)) → o ≡ appended o []
    by_entry none = refl
    by_entry (some ts) = ap some (sym (append-nil ts))
get-push_all u (c ∷ cs) adj =
    get-push_all u cs (push_target c.source.node_id (get c.source.node_id adj) c.target.node_id adj)
    ∙ by_entry (get c.source.node_id adj) refl
  where
    at_u :
        (o : Option (List String))
        → (c.source.node_id == u) ≡ true
        → get c.source.node_id adj ≡ o
        → get u adj ≡ o
    at_u o same e = ap (λ i. get i adj) (sym ((==_iff c.source.node_id u).0 same)) ∙ e

    by_entry :
        (o : Option (List String))
        → get c.source.node_id adj ≡ o
        → appended (get u (push_target c.source.node_id o c.target.node_id adj)) (targets u cs)
          ≡ appended (get u adj) (targets u (c ∷ cs))
    by_entry none e = elim (Bool-cases (c.source.node_id == u)) [
      | inl same ↦ rw (at_u none same e) refl
      | inr other ↦ rw other refl
    ]
    by_entry (some ts) e =
        rw (get-put c.source.node_id u (ts ++ c.target.node_id ∷ []) adj)
          (elim (Bool-cases (c.source.node_id == u)) [
            | inl same ↦
                rw (at_u (some ts) same e)
                  (rw same (ap some (append_assoc ts (c.target.node_id ∷ []) (targets u cs))))
            | inr other ↦ rw other refl
          ])

get-no_targets :
    (u : String) (ns : List FlowNodePlain) (adj : Adjacency)
    → get u (no_targets ns adj)
      ≡ (if includes (map (λ n. n.node_id) ns) u then some [] else get u adj)
unfolding no_targets
get-no_targets u [] adj = refl
get-no_targets u (n ∷ ns) adj =
    ground (arith, get-no_targets u ns (put n.node_id [] adj), get-put n.node_id u [] adj)

-- The targets that the search pushes are those of the known connections.
targets-known :
    (u : String) (ns : List FlowNodePlain) (cs : List FlowConnectionPlain)
    → targets u (known ns cs) ≡ (if includes (map (λ n. n.node_id) ns) u then targets u cs else [])
targets-known u ns [] = ground arith
targets-known u ns (c ∷ cs) = ground (arith, targets-known u ns cs, ==_iff c.source.node_id u)

pub adjacency-targets :
    (u : String) (ns : List FlowNodePlain) (cs : List FlowConnectionPlain)
    → or_else (get u (adjacency ns cs)) [] ≡ targets u (known ns cs)
adjacency-targets u ns cs =
    ap (λ o. or_else o []) (get-push_all u cs (no_targets ns []))
    ∙ ap (λ o. or_else (appended o (targets u cs)) []) (get-no_targets u ns [])
    ∙ by_node (includes (map (λ n. n.node_id) ns) u) refl
  where
    by_node :
        (b : Bool)
        → includes (map (λ n. n.node_id) ns) u ≡ b
        → or_else (appended (if b then some [] else none) (targets u cs)) []
          ≡ targets u (known ns cs)
    by_node true e = sym (targets-known u ns cs ∙ rw e refl)
    by_node false e = sym (targets-known u ns cs ∙ rw e refl)
