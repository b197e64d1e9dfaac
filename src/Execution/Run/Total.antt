-- ===== src/Execution/Run/Total.antt =====
-- The errors that a round of the loop of `runPublishedFlow` can throw, and the flows without them.
use roya_api.Prelude.{
  String, ◌≤◌, true, Option, none, some, List, [], ◌∷◌, ◌++◌, ◌==◌, string_eq, option_eq, ==_iff,
  or_else, or_option, length, filter, Memᴰ, ◌≡◌, refl, sym, ap, subst, ◌∙◌, ◌⊎◌, inl, inr, arith,
  Bool-cases, append_assoc, append-nil,
}
use roya_api.Prelude.Distinct.{Distinct}
use roya_api.Prelude.Dict.{get, put, get-put}
use roya_api.Prelude.Result.{Result, ok, threw, and_then}
use roya_api.Enums.{NodeCategory, category_eq}
use roya_api.Category.{resolve_category}
use roya_api.Value.{Value, Record, at, as_record, entries, is_nullish, is_undefined, of_list}
use roya_api.Execution.{SnapshotNode, SnapshotConnection, Runtime, snapshot_ids}
use roya_api.Execution.Order.{topological_order}
use roya_api.Execution.Order.Once.{topological_order-Distinct}
use roya_api.Execution.PortMerge.{
  ByPort, brought, merge_incoming_generic, collect_incoming_by_port, collect_merger_inbound_array,
  merge_mapper_keyed_inputs,
}
use roya_api.Execution.PortMerge.Ports.{merge_mapper_keyed_inputs-arriving}
use roya_api.Execution.Upstream.{
  Incoming, check_upstream, index_incoming, Documents, Flavor, transform_flavor, document,
  resolve_inputs_for_node_trace,
}
use roya_api.Execution.Run.{
  RunState, first_text, filled, trimmed_en, label_text, config_label, display_label,
  snapshot_node_display_label, node_required, after_check, run_node, run_nodes, run_flow,
}

-- The connections into a node, and of them those into a port.
abbrev pub into_node : String → List SnapshotConnection → List SnapshotConnection
into_node v = filter (λ c. c.target.node_id == v)

abbrev pub into_port : String → List SnapshotConnection → List SnapshotConnection
into_port p = filter (λ c. c.target.port_key == p)

Result-cases :
    {A : Type 0} (r : Result A) → ((a : A) × (r ≡ ok a)) ⊎ ((e : Option String) × (r ≡ threw e))
Result-cases (ok a) = inl (a, refl)
Result-cases (threw e) = inr (e, refl)

Flavor-cases : (f : Flavor) → (f ≡ Flavor.merger) ⊎ (f ≡ Flavor.mapper)
Flavor-cases Flavor.merger = inl refl
Flavor-cases Flavor.mapper = inr refl

length-collect_merger :
    (cs : List SnapshotConnection) (runtime : Runtime)
    → length (collect_merger_inbound_array cs runtime) ≤ length cs
unfolding collect_merger_inbound_array
length-collect_merger [] runtime = omega arith
length-collect_merger (c ∷ cs) runtime = elim (Bool-cases (is_undefined (brought c runtime))) [
  | inl e ↦ rw e (omega (arith, length-collect_merger cs runtime))
  | inr e ↦ rw e (omega (arith, length-collect_merger cs runtime))
]

-- Whether a node is a mapper in the documents' eyes.
abbrev pub IsMapper : Documents → SnapshotNode → Type 0
IsMapper docs n =
    ((resolve_category n.category (some n.node_kind) == some NodeCategory.transform) ≡ true)
    × (transform_flavor n (document n docs) ≡ Flavor.mapper)

-- What can be read as a text, or is not there.
abbrev pub ReadsAsText : Value → Type 0
ReadsAsText v = (is_nullish v ≡ true) ⊎ ((text : String) × (v ≡ Value.string text))

-- `node.config?.label?.values?.['en']`
abbrev pub english_label : SnapshotNode → Value
english_label n = at "en" (
    or_else (as_record (at "values" (or_else (as_record (at "label" (or_else n.config []))) [])))
      [])

-- An English label that is there is a string.
abbrev pub LabelReads : SnapshotNode → Type 0
LabelReads n = ReadsAsText (english_label n)

resolve_inputs-ok :
    (n : SnapshotNode) (incoming : List SnapshotConnection) (runtime : Runtime) (docs : Documents)
    → (IsMapper docs n → (p : String) → length (into_port p incoming) ≤ 1)
    → (inputs : Record) × (resolve_inputs_for_node_trace n incoming runtime docs ≡ ok inputs)
unfolding resolve_inputs_for_node_trace
resolve_inputs-ok n incoming runtime docs single =
    elim (Bool-cases
      (resolve_category n.category (some n.node_kind) == some NodeCategory.transform)) [
        | inl e ↦ elim (Flavor-cases (transform_flavor n (document n docs))) [
          | inl f ↦
              (("in", of_list (collect_merger_inbound_array incoming runtime)) ∷ [], rw (e, f) refl)
          | inr f ↦
              elim (Result-cases
                (merge_mapper_keyed_inputs (collect_incoming_by_port incoming runtime))) [
                  | inl (inputs, merged) ↦ (inputs, rw (e, f) merged)
                  | inr (error, thrown) ↦
                      let (p, many) =
                        (merge_mapper_keyed_inputs-arriving incoming runtime).1 error thrown in
                      absurd (
                        omega (
                          arith,
                          many,
                          single (e, f) p,
                          length-collect_merger (into_port p incoming) runtime,
                        ))
                ]
        ]
        | inr e ↦ (merge_incoming_generic (collect_incoming_by_port incoming runtime), rw e refl)
      ]

index_incoming-into_node :
    (v : String) (cs : List SnapshotConnection) (m : Incoming)
    → or_else (get v (index_incoming cs m)) [] ≡ or_else (get v m) [] ++ into_node v cs
unfolding index_incoming
index_incoming-into_node v [] m = sym (append-nil _)
index_incoming-into_node v (c ∷ cs) m =
    index_incoming-into_node v cs
      (put c.target.node_id (or_else (get c.target.node_id m) [] ++ c ∷ []) m)
    ∙ elim (Bool-cases (c.target.node_id == v)) [
      | inl e ↦ rw (get-put c.target.node_id v (or_else (get c.target.node_id m) [] ++ c ∷ []) m) (
          rw e (
            ap (λ w. (or_else (get w m) [] ++ c ∷ []) ++ into_node v cs)
              ((==_iff c.target.node_id v).0 e)
            ∙ append_assoc (or_else (get v m) []) (c ∷ []) (into_node v cs)))
      | inr e ↦
          rw (get-put c.target.node_id v (or_else (get c.target.node_id m) [] ++ c ∷ []) m)
            (rw e refl)
    ]

trimmed_en-ok : (v : Value) → ReadsAsText v → (text : Option String) × (trimmed_en v ≡ ok text)
trimmed_en-ok v (inr (s, e)) = (_, ap trimmed_en e)
trimmed_en-ok Value.undefined (inl h) = (_, refl)
trimmed_en-ok Value.null (inl h) = (_, refl)
trimmed_en-ok (Value.string s) (inl h) = (_, refl)
trimmed_en-ok (Value.boolean b) (inl h) = cc
trimmed_en-ok (Value.number f t) (inl h) = cc
trimmed_en-ok (Value.array vs) (inl h) = cc
trimmed_en-ok (Value.object fs) (inl h) = cc

label_text-ok :
    (values : Value)
    → ReadsAsText (at "en" (or_else (as_record values) []))
    → (text : Option String) × (label_text values ≡ ok text)
label_text-ok Value.undefined h = (_, refl)
label_text-ok Value.null h = (_, refl)
label_text-ok (Value.string s) h = (_, refl)
label_text-ok (Value.boolean b) h = (_, refl)
label_text-ok (Value.number f t) h = (_, refl)
label_text-ok (Value.array vs) h = (_, refl)
label_text-ok (Value.object fs) h =
    let (en, e) = trimmed_en-ok (at "en" (entries fs)) h in
    (_, ap (λ r. and_then r (λ en. ok (or_option en (first_text (entries fs))))) e)

config_label-ok :
    (config : Option Record)
    → ReadsAsText (
        at "en" (
          or_else
            (as_record (at "values" (or_else (as_record (at "label" (or_else config []))) [])))
            []))
    → (text : Option String) × (label_text (config_label config) ≡ ok text)
config_label-ok none h = (_, refl)
config_label-ok (some config) h =
    label_text-ok (at "values" (or_else (as_record (at "label" config)) [])) h

display_label-ok :
    (label : Option String) (config : Option Record) (name : Option String)
    → ((text : Option String) × (label_text (config_label config) ≡ ok text))
    → (shown : Option String) × (display_label label config name ≡ ok shown)
display_label-ok (some label) config name h = (_, refl)
display_label-ok none config name (text, e) =
    (_, ap (λ r. and_then r (λ text. ok (or_option text name))) e)

snapshot_node_display_label-ok :
    (n : SnapshotNode)
    → LabelReads n
    → (label : Option String) × (snapshot_node_display_label n ≡ ok label)
unfolding snapshot_node_display_label
snapshot_node_display_label-ok n reads =
    display_label-ok (filled n.label) n.config n.name (config_label-ok n.config reads)

module _ (execute : SnapshotNode → List SnapshotConnection → Runtime → ByPort → Result Record)
    (docs : Documents) where
  run_node-ok :
      (n : SnapshotNode) (incoming : List SnapshotConnection) (s : RunState)
      → (IsMapper docs n → (p : String) → length (into_port p incoming) ≤ 1)
      → LabelReads n
      → (t : RunState) × (run_node execute docs n incoming s ≡ ok t)
  unfolding run_node
  run_node-ok n incoming s single reads =
      let (inputs, resolved) = resolve_inputs-ok n incoming s.runtime docs single in
      let (label, read) = snapshot_node_display_label-ok n reads in
      (
        after_check execute docs n incoming label inputs
            (check_upstream n incoming s.runtime (node_required n)) s,
        rw (resolved, read) refl,
      )

  run_nodes-ok :
      (incoming : Incoming) (ns : List SnapshotNode) (s : RunState)
      → ((n : SnapshotNode)
          → Memᴰ n ns
          → IsMapper docs n
          → (p : String) → length (into_port p (or_else (get n.node_id incoming) [])) ≤ 1)
      → ((n : SnapshotNode) → Memᴰ n ns → LabelReads n)
      → (t : RunState) × (run_nodes execute docs incoming ns s ≡ ok t)
  unfolding run_nodes
  run_nodes-ok incoming [] s single reads = (s, refl)
  run_nodes-ok incoming (n ∷ ns) s single reads =
      let (m, round) =
        run_node-ok n (or_else (get n.node_id incoming) []) s (single n (Memᴰ.head refl))
          (reads n (Memᴰ.head refl)) in
      let (t, later) =
        run_nodes-ok incoming ns m (λ k h. single k (Memᴰ.tail h)) (λ k h. reads k (Memᴰ.tail h)) in
      (t, ap (λ r. and_then r (λ t. run_nodes execute docs incoming ns t)) round ∙ later)

  -- The loop of `runPublishedFlow` returns, whatever the executors do, for every flow with distinct
  -- ids in which no port of a mapper node is the target of two connections, and in which the English
  -- text of each node's localized label is a string if it is there.
  pub run_flow-ok :
      (ns : List SnapshotNode) (cs : List SnapshotConnection)
      → Distinct (snapshot_ids ns)
      → ((n : SnapshotNode)
          → Memᴰ n ns
          → IsMapper docs n
          → (p : String) → length (into_port p (into_node n.node_id cs)) ≤ 1)
      → ((n : SnapshotNode) → Memᴰ n ns → LabelReads n)
      → (t : RunState) × (run_flow execute docs ns cs ≡ ok t)
  unfolding run_flow
  run_flow-ok ns cs distinct single reads =
      let members = (topological_order-Distinct ns cs distinct).1 in
      run_nodes-ok (index_incoming cs []) (topological_order ns cs) _
        (λ n listed mapper p.
          subst (λ xs. length (into_port p xs) ≤ 1) (sym (index_incoming-into_node n.node_id cs []))
            (single n ((members n).0 listed) mapper p))
        (λ n listed. reads n ((members n).0 listed))
