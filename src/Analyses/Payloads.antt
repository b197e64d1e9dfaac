-- ===== src/Analyses/Payloads.antt =====
-- The results of a run as the objects that are persisted: dynamic-flow-execution.service.ts and
-- reports/types/execution-try.types.ts. The times inside a result are left out, as in the run.
use roya_api.Prelude.{String, Option, none, some, List, [], ◌∷◌, map}
use roya_api.Enums.{BranchResultStatus, ValidationIssueSeverity, category_value}
use roya_api.Value.{Value, of_record, of_list}
use roya_api.Execution.{NodeStatus}
use roya_api.Execution.Run.{ValidationIssuePayload, NodeTry}
use roya_api.Execution.Run.Report.{BranchResult}

-- A property that may be missing.
abbrev pub optional {ℓ} : {A : Type ℓ} → (A → Value) → Option A → Value
optional f none = Value.undefined
optional f (some a) = f a

abbrev pub severity_value : ValidationIssueSeverity → String
severity_value ValidationIssueSeverity.error = "error"
severity_value ValidationIssueSeverity.warning = "warning"

abbrev pub branch_status_value : BranchResultStatus → String
branch_status_value BranchResultStatus.pending = "pending"
branch_status_value BranchResultStatus.running = "running"
branch_status_value BranchResultStatus.completed = "completed"
branch_status_value BranchResultStatus.failed = "failed"
branch_status_value BranchResultStatus.warning = "warning"

abbrev pub node_status_value : NodeStatus → String
node_status_value NodeStatus.completed = "completed"
node_status_value NodeStatus.failed = "failed"
node_status_value NodeStatus.skipped = "skipped"

abbrev english : String → Value
english message = of_record (
    ("defaultLanguage", Value.string "en")
    ∷ ("values", of_record (("en", Value.string message) ∷ []))
    ∷ [])

pub issue_payload : ValidationIssuePayload → Value
issue_payload i = of_record (
    ("code", Value.string i.code)
    ∷ ("path", Value.string i.path)
    ∷ ("message", english i.message)
    ∷ ("severity", Value.string (severity_value i.severity))
    ∷ ("nodeId", Value.string i.node_id)
    ∷ [])

pub branch_payload : BranchResult → Value
unfolding issue_payload
branch_payload b = of_record (
    ("pathId", Value.string b.path_id)
    ∷ ("terminalKey", Value.string b.terminal_key)
    ∷ ("status", Value.string (branch_status_value b.status))
    ∷ ("required", Value.boolean b.required)
    ∷ ("data", optional of_record b.data_fields)
    ∷ ("error", optional issue_payload b.error)
    ∷ [])

pub node_try_payload : NodeTry → Value
node_try_payload t = of_record (
    ("nodeId", Value.string t.node_id)
    ∷ ("nodeKey", Value.string t.node_key)
    ∷ ("nodeCategory", optional (λ c. Value.string (category_value c)) t.node_category)
    ∷ ("label", optional Value.string t.label)
    ∷ ("status", Value.string (node_status_value t.status))
    ∷ ("inputs", of_record t.inputs)
    ∷ ("outputs", optional of_record t.outputs)
    ∷ ("errorCode", optional Value.string t.error_code)
    ∷ ("errorMessage", optional Value.string t.error_message)
    ∷ [])

abbrev pub payloads {ℓ} : {A : Type ℓ} → (A → Value) → List A → Value
payloads f xs = of_list (map f xs)
