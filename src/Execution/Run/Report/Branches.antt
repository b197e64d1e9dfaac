-- ===== src/Execution/Run/Report/Branches.antt =====
-- What the branch results hold, and when a run has data.
use roya_api.Prelude.{
  String, ℕ, ◌≤◌, Bool, true, false, Option, none, some, List, [], ◌∷◌, if◌then◌else◌, string_eq,
  length, includes, Memᴰ, ◌≡◌, refl, ap, subst, arith, Bool-cases, Option-cases, inl, inr, All,
  All-append, ltb,
}
use roya_api.Prelude.Distinct.{Distinct, Within}
use roya_api.Prelude.Dict.{get, keys}
use roya_api.Prelude.Result.{Result, ok}
use roya_api.Value.{Value, Record}
use roya_api.Enums.{NodeCategory}
use roya_api.Execution.{
  SnapshotNode, SnapshotConnection, NodeRuntime, Runtime, is_completed, snapshot_ids,
}
use roya_api.Execution.PortMerge.{ByPort}
use roya_api.Execution.Upstream.{Documents}
use roya_api.Execution.OutputSchema.{
  Schema, merge_output_schema_from_snapshot_nodes, normalize_terminal_payload_to_record,
}
use roya_api.Execution.OutputSchema.Pick.{pick_terminal_payload_for_report}
use roya_api.Execution.OutputSchema.Pick.Keys.{pick_terminal_payload_for_report-Within}
use roya_api.Execution.OutputSchema.Cells.{all_typed, wrap_output_data_with_schema-Cells}
use roya_api.Execution.Run.{RunState, ValidationIssuePayload, node_required, run_flow}
use roya_api.Execution.Run.Steps.{issue_nodes}
use roya_api.Execution.Run.Trace.{entry_failed, run_flow-failures}
use roya_api.Execution.Run.Report.{
  BranchResult, Terminals, in_category, report_record, ai_result, push_terminal, push_terminals,
  ai_fallback, completed_branches, choose_final, finish_run,
}

-- Fields that are typed cells, named by the schema where it names any.
pub record IsReport (schema : Schema) (fields : Record) : Type 0 where
  pub typed : all_typed fields ≡ true
  pub named : 1 ≤ length schema → Within (keys fields) (keys schema)

abbrev pub HoldsReport : Schema → BranchResult → Type 0
HoldsReport schema b = (fields : Record) → b.data_fields ≡ some fields → IsReport schema fields

some-injective : {a b : Record} → some a ≡ some b → a ≡ b
some-injective h = cc

branch-injective : {a b : BranchResult} → some a ≡ some b → a ≡ b
branch-injective h = cc

module _ (lower_case : String → String) (schema : Schema) where
  report_record-IsReport : (raw : Value) → IsReport schema (report_record lower_case schema raw)
  report_record-IsReport raw =
      let picked : Record =
        pick_terminal_payload_for_report lower_case (normalize_terminal_payload_to_record raw)
          schema in
      let (same, typed, again) = wrap_output_data_with_schema-Cells picked schema [] in
      record {
        typed = typed;
        named = λ h. rw same (
            pick_terminal_payload_for_report-Within lower_case
              (normalize_terminal_payload_to_record raw) schema h);
      }

  push_terminal-All :
      (n : SnapshotNode) (rt : Option NodeRuntime) (acc : Terminals)
      → All (HoldsReport schema) acc.branch_results
      → All (HoldsReport schema) (push_terminal lower_case schema n rt acc).branch_results
  unfolding push_terminal
  push_terminal-All n none acc h =
      All-append (HoldsReport schema) acc.branch_results _ h (λ f e. cc, tt)
  push_terminal-All n (some rt) acc h = elim (Bool-cases (is_completed rt.status)) [
    | inl e ↦ rw e (
        All-append (HoldsReport schema) acc.branch_results _ h
          (λ f q. subst (IsReport schema) (some-injective q) (report_record-IsReport _), tt))
    | inr e ↦ rw e (All-append (HoldsReport schema) acc.branch_results _ h (λ f q. cc, tt))
  ]

  either-All :
      (b : Bool) (x y : Terminals)
      → All (HoldsReport schema) x.branch_results
      → All (HoldsReport schema) y.branch_results
      → All (HoldsReport schema) (if b then x else y).branch_results
  either-All true x y h k = h
  either-All false x y h k = k

  push_terminals-All :
      (ns : List SnapshotNode) (runtime : Runtime) (acc : Terminals)
      → All (HoldsReport schema) acc.branch_results
      → All (HoldsReport schema) (push_terminals lower_case schema ns runtime acc).branch_results
  unfolding push_terminals
  push_terminals-All [] runtime acc h = h
  push_terminals-All (n ∷ ns) runtime acc h =
      let pushed : Terminals = push_terminal lower_case schema n (get n.node_id runtime) acc in
      push_terminals-All ns runtime (if in_category NodeCategory.terminal n then pushed else acc) (
        either-All (in_category NodeCategory.terminal n) pushed acc
          (push_terminal-All n (get n.node_id runtime) acc h) h)

  ai_fallback-HoldsReport :
      (ns : List SnapshotNode) (runtime : Runtime) (b : BranchResult)
      → ai_fallback lower_case schema ns runtime ≡ some b
      → HoldsReport schema b
  unfolding ai_fallback
  ai_fallback-HoldsReport [] runtime b h = cc
  ai_fallback-HoldsReport (n ∷ ns) runtime b h = elim (Bool-cases (in_category NodeCategory.ai n)) [
    | inl e ↦ elim (Option-cases (ai_result lower_case schema (get n.node_id runtime))) [
      | inl absent ↦ ai_fallback-HoldsReport ns runtime b (rw (e, absent) at h)
      | inr (raw, found) ↦
          subst (HoldsReport schema) (branch-injective (rw (e, found) at h))
            (λ f q. subst (IsReport schema) (some-injective q) (report_record-IsReport raw))
    ]
    | inr e ↦ ai_fallback-HoldsReport ns runtime b (rw e at h)
  ]

  choose_final-All :
      (bs : List BranchResult) (acc : Terminals) (fallback : Option BranchResult)
      → All (HoldsReport schema) acc.branch_results
      → ((b : BranchResult) → fallback ≡ some b → HoldsReport schema b)
      → All (HoldsReport schema) (choose_final bs acc fallback).branches
  unfolding choose_final
  choose_final-All [] acc none h f = h
  choose_final-All [] acc (some b) h f =
      All-append (HoldsReport schema) acc.branch_results (b ∷ []) h (f b refl, tt)
  choose_final-All (only ∷ []) acc fallback h f = h
  choose_final-All (b ∷ c ∷ bs) acc fallback h f = h

-- Whatever the run did, each of the result's branches that has data has typed cells alone, under
-- keys of the flow's output schema if that has any.
pub finish_run-HoldsReport :
    (lower_case : String → String) (ns : List SnapshotNode) (version : ℕ) (s : RunState)
    → All
        (HoldsReport (merge_output_schema_from_snapshot_nodes ns))
        (finish_run lower_case ns version s).branch_results
unfolding finish_run
finish_run-HoldsReport lower_case ns version s =
    let schema : Schema = merge_output_schema_from_snapshot_nodes ns in
    let acc : Terminals =
      push_terminals lower_case schema ns s.runtime
        (record { branch_results = []; terminal_data = [] }) in
    choose_final-All lower_case schema (completed_branches acc.branch_results) acc
      (ai_fallback lower_case schema ns s.runtime)
      (push_terminals-All lower_case schema ns s.runtime _ tt)
      (ai_fallback-HoldsReport lower_case schema ns s.runtime)

finish_run-no_failures :
    (lower_case : String → String) (ns : List SnapshotNode) (version : ℕ) (s : RunState)
    (fields : Record)
    → (finish_run lower_case ns version s).data_fields ≡ some fields
    → s.required_failures ≡ []
unfolding finish_run
finish_run-no_failures lower_case ns version s fields h =
    elim (Bool-cases (ltb 0 (length s.required_failures))) [
      | inl e ↦ absurd (data_less (rw e at h))
      | inr e ↦ empty_of s.required_failures e
    ]
  where
    data_less : none ≡ some fields → ⊥
    data_less q = cc

    empty_of : (is : List ValidationIssuePayload) → ltb 0 (length is) ≡ false → is ≡ []
    empty_of [] q = refl
    empty_of (i ∷ is) q = absurd (ground (arith, q))

-- Where a flow with distinct ids has run and its result has data, no required node failed.
pub finish_run-required :
    (execute : SnapshotNode → List SnapshotConnection → Runtime → ByPort → Result Record)
    (docs : Documents) (lower_case : String → String) (ns : List SnapshotNode)
    (cs : List SnapshotConnection) (version : ℕ) (s : RunState) (fields : Record)
    → run_flow execute docs ns cs ≡ ok s
    → Distinct (snapshot_ids ns)
    → (finish_run lower_case ns version s).data_fields ≡ some fields
    → (k : SnapshotNode) → Memᴰ k ns
    → node_required k ≡ true
    → entry_failed (get k.node_id s.runtime) ≡ false
finish_run-required execute docs lower_case ns cs version s fields h d has k listed required =
    let empty = finish_run-no_failures lower_case ns version s fields has in
    let failures = run_flow-failures execute docs ns cs s h d k listed in
    ground (arith, required, ap (λ is. includes (issue_nodes is) k.node_id) empty, failures)
