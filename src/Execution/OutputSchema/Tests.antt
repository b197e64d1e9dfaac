-- ===== src/Execution/OutputSchema/Tests.antt =====
-- A payload, and the theorems about dynamic-flow-output-schema.util.ts at it.
use roya_api.Prelude.{String, true, [], ◌∷◌, ◌≡◌, string_eq, arith, is_some, suc}
use roya_api.Prelude.Distinct.{Within}
use roya_api.Prelude.Dict.{keys}
use roya_api.Value.{Value, Record}
use roya_api.Execution.OutputSchema.{Schema, weight, candidate_array}
use roya_api.Execution.OutputSchema.Pick.{pick, pick_terminal_payload_for_report}
use roya_api.Execution.OutputSchema.Pick.Keys.{pick_terminal_payload_for_report-Within}
use roya_api.Execution.OutputSchema.Pick.Fuel.{pick-candidate_array-total}
use roya_api.Execution.OutputSchema.Cells.{
  all_typed, wrap_output_data_with_schema, wrap_output_data_with_schema-Cells,
}

abbrev same_case : String → String
same_case s = s

abbrev payload : Record
payload = ("Title (text)", Value.string "Roya") ∷ ("in", Value.null) ∷ []

abbrev title_schema : Schema
title_schema = ("Title", "text") ∷ []

pick_terminal_payload_for_report-Within_example :
    Within (keys (pick_terminal_payload_for_report same_case payload title_schema)) ("Title" ∷ [])
pick_terminal_payload_for_report-Within_example =
    pick_terminal_payload_for_report-Within same_case payload title_schema (omega arith)

pick-candidate_array-total_example :
    (is_some (pick same_case (suc (weight payload)) payload title_schema) ≡ true)
    × (is_some (candidate_array (suc (weight payload)) payload) ≡ true)
pick-candidate_array-total_example = pick-candidate_array-total same_case payload title_schema

wrap_output_data_with_schema-Cells_example :
    (keys (wrap_output_data_with_schema payload title_schema) ≡ keys payload)
    × (all_typed (wrap_output_data_with_schema payload title_schema) ≡ true)
    × (wrap_output_data_with_schema (wrap_output_data_with_schema payload title_schema) []
        ≡ wrap_output_data_with_schema payload title_schema)
wrap_output_data_with_schema-Cells_example =
    wrap_output_data_with_schema-Cells payload title_schema []
