-- ===== src/Execution/Executors/Registry.antt =====
-- analyses/dynamic-flow-node-executors.service.ts: the executors that call other services, and
-- `NodeExecutorRegistryService.execute`.
use roya_api.Prelude.{
  String, Bool, Option, none, some, List, [], ◌∷◌, if◌then◌else◌, ◌==◌, string_eq, or_else,
  or_option, length, ltb,
}
use roya_api.Prelude.Dict.{get}
use roya_api.Prelude.Text.{template, trim}
use roya_api.Prelude.Result.{Result, ok, threw, and_then}
use roya_api.Value.{Value, Record, at, as_record, as_string, of_record, of_list, coalesce}
use roya_api.Execution.{SnapshotNode, SnapshotMapperRule, SnapshotConnection, Runtime}
use roya_api.Execution.PortMerge.{
  ByPort, merge_incoming_generic, merge_mapper_keyed_inputs, collect_merger_inbound_array,
}
use roya_api.Execution.Upstream.{
  Documents, Flavor, transform_flavor, document, required_unless_false,
}
use roya_api.Execution.Executors.{
  Executor, executor_for, config_of, nonempty, model_from_provider_key, execute_input,
  execute_schema, execute_terminal, execute_passthrough, resolve_source_provider_slug,
  declared_inputs, port_outputs, normalize_rules,
}

-- What the AI executor reads of a report type.
pub record ReportNames : Type 0 where
  pub slug : String
  pub name : Option String
  pub default_language : Option String
  pub localized : List (String × String)

abbrev spoken : Option String → Option String
spoken none = none
spoken (some s) = if trim s == "" then none else some s

abbrev trim_some : Option String → Option String
trim_some none = none
trim_some (some s) = some (trim s)

unfoldable pub pick_localized_name : ReportNames → String
pick_localized_name r =
    let lang : String = or_else r.default_language "en" in
    or_else
      (or_option (trim_some (spoken r.name))
        (spoken (or_option (get lang r.localized) (get "en" r.localized))))
      r.slug

-- What is asked of the model.
pub record ReportRequest : Type 0 where
  pub slug : String
  pub output_schema : Value
  pub name : String
  pub context : Value
  pub model : Option String
  pub prompt_subject : String

abbrev schema_field : Option Record → Value
schema_field none = Value.undefined
schema_field (some r) = at "outputSchema" r

abbrev subject_text : Record → Option String → String
subject_text inputs none = ""
subject_text inputs (some key) =
    if key == "" then "" else or_else (trim_some (as_string (at key inputs))) ""

abbrev report_request : SnapshotNode → ReportNames → Option String → Record → Record → ReportRequest
report_request n names openai_model inputs merged = record {
  slug = names.slug;
  output_schema =
      coalesce (coalesce (at "outputSchema" merged) (schema_field (as_record (at "schema" merged))))
        (coalesce (at "outputSchema" (config_of n)) (of_record []));
  name = pick_localized_name names;
  context = coalesce (at "data" merged) (of_record merged);
  model = or_option (model_from_provider_key n.provider_key) openai_model;
  prompt_subject =
      subject_text inputs (trim_some (as_string (at "promptSubjectInputKey" (config_of n))));
}

module _ (run_connector : String → Record → Record → Option Record → Bool → Result Record)
    (generate_report : ReportRequest → Result Value)
    (apply_rules : Record → List SnapshotMapperRule → Record) (docs : Documents)
    (names : ReportNames) (openai_model : Option String) (inputs : Record) where
  abbrev run_source : SnapshotNode → ByPort → Option String → Result Record
  run_source n by_port none = threw (
      some (
        template (
          "Data source node \"" ∷ n.node_id
          ∷ "\" has no providerKey and no legacy dataSourceSlug config." ∷ [])))
  run_source n by_port (some slug) =
      and_then
        (run_connector slug (declared_inputs by_port) (config_of n) (document n docs)
          (required_unless_false n.required))
        (λ bucket. ok (port_outputs bucket))

  pub execute_source : SnapshotNode → ByPort → Result Record
  unfolding resolve_source_provider_slug declared_inputs
  execute_source n by_port = run_source n by_port (nonempty (resolve_source_provider_slug n))

  abbrev run_mapper : SnapshotNode → Record → Record
  run_mapper n merged =
      let rules : List SnapshotMapperRule = or_else n.mapper_rules [] in
      if ltb 0 (length rules) then apply_rules merged (normalize_rules rules) else merged

  abbrev run_transform :
      Flavor → SnapshotNode → List SnapshotConnection → Runtime → ByPort → Result Record
  run_transform Flavor.merger n incoming runtime by_port =
      ok (("out", of_list (collect_merger_inbound_array incoming runtime)) ∷ [])
  run_transform Flavor.mapper n incoming runtime by_port =
      and_then (merge_mapper_keyed_inputs by_port)
        (λ merged. ok (("out", of_record (run_mapper n merged)) ∷ []))

  pub execute_transform : SnapshotNode → List SnapshotConnection → Runtime → ByPort → Result Record
  unfolding normalize_rules
  execute_transform n incoming runtime by_port =
      run_transform (transform_flavor n (document n docs)) n incoming runtime by_port

  pub execute_ai : SnapshotNode → ByPort → Result Record
  execute_ai n by_port =
      and_then
        (generate_report
          (report_request n names openai_model inputs (merge_incoming_generic by_port)))
        (λ result. ok (("result", result) ∷ []))

  pub execute_with :
      Executor → SnapshotNode → List SnapshotConnection → Runtime → ByPort → Result Record
  unfolding execute_input execute_passthrough execute_source execute_transform execute_ai
  execute_with Executor.input n incoming runtime by_port = ok (execute_input n inputs)
  execute_with Executor.source n incoming runtime by_port = execute_source n by_port
  execute_with Executor.transform n incoming runtime by_port =
      execute_transform n incoming runtime by_port
  execute_with Executor.schema n incoming runtime by_port = ok (execute_schema n by_port)
  execute_with Executor.ai n incoming runtime by_port = execute_ai n by_port
  execute_with Executor.terminal n incoming runtime by_port = ok (execute_terminal n by_port)
  execute_with Executor.passthrough n incoming runtime by_port = ok (execute_passthrough by_port)

  unfoldable pub execute_node :
      SnapshotNode → List SnapshotConnection → Runtime → ByPort → Result Record
  unfolding execute_with
  execute_node n incoming runtime by_port = execute_with (executor_for n) n incoming runtime by_port
