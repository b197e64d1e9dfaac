-- ===== src/Execution/OutputSchema/Pick.antt =====
-- analyses/dynamic-flow-output-schema.util.ts: the report's fields out of a terminal's payload.
pub mod Keys
pub mod Fuel
use roya_api.Prelude.{
  String, ℕ, zero, suc, ◌+◌, Bool, true, false, not, ◌||◌, Option, none, some, List, [], ◌∷◌,
  if◌then◌else◌, ◌==◌, ==_iff, ==_refl, string_eq, or_else, includes, filter, length, ltb, ◌≡◌,
  refl, arith, Bool-cases, ◌⊎◌, inl, inr,
}
use roya_api.Prelude.Distinct.{Within}
use roya_api.Prelude.Dict.{get, put, keys, get-put, includes-keys}
use roya_api.Prelude.Text.{trim}
use roya_api.Value.{Value, Record, is_undefined}
use roya_api.Execution.OutputSchema.{
  Schema, reserved, try_unwrap_port_only_payload, weight, extract_ordered_candidate_array,
  bind_keys, strip_output_field_type_label, normalize_port_cell_to_scalar,
}

module _ (lower_case : String → String) where
  pub value_by_label : String → Record → Value
  value_by_label want [] = Value.undefined
  value_by_label want ((k, v) ∷ r) =
      if lower_case (strip_output_field_type_label k) == want then v else value_by_label want r

  pub value_for_output_schema_key : Record → String → Value
  unfolding value_by_label
  value_for_output_schema_key flat k = elim (get k flat) [
    | some v ↦ v
    | none ↦ value_by_label (lower_case (trim k)) flat
  ]

  pub pick_keys : Schema → Record → Record → Record
  unfolding value_for_output_schema_key
  pick_keys [] flat out = out
  pick_keys (entry ∷ schema) flat out =
      let v = value_for_output_schema_key flat entry.0 in
      pick_keys schema flat (if is_undefined v then out else put entry.0 v out)

  -- What the payload gives before it is unwrapped.
  pub pick_direct : Schema → Record → Record
  unfolding pick_keys
  pick_direct [] flat = filter (λ e. not (reserved e.0)) flat
  pick_direct (entry ∷ schema) flat = pick_keys (entry ∷ schema) flat []

  abbrev bind_list : Schema → Option (List Value) → Record
  bind_list schema none = []
  bind_list schema (some arr) = if ltb 0 (length arr) then bind_keys schema arr [] else []

  pub bind_if_empty : Schema → Record → Record → Record
  bind_if_empty [] flat r = r
  bind_if_empty (entry ∷ schema) flat [] =
      bind_list (entry ∷ schema) (extract_ordered_candidate_array flat)
  bind_if_empty (entry ∷ schema) flat (x ∷ r) = x ∷ r

  abbrev bind_result : Schema → Record → Option Record → Option Record
  bind_result schema flat none = none
  bind_result schema flat (some r) = some (bind_if_empty schema flat r)

  -- The fields found directly, if there are any, and what unwrapping gives otherwise.
  abbrev pub keep_direct : Schema → Record → Record → Option Record → Option Record
  keep_direct schema flat [] deeper = deeper
  keep_direct schema flat (x ∷ r) deeper = some (bind_if_empty schema flat (x ∷ r))

  -- `none` means that the fuel ran out.
  pub pick : ℕ → Record → Schema → Option Record
  unfolding pick_direct bind_if_empty
  pick zero flat schema = none
  pick (suc fuel) flat schema =
      keep_direct schema flat (pick_direct schema flat) (elim (try_unwrap_port_only_payload flat) [
        | some inner ↦ bind_result schema flat (pick fuel inner schema)
        | none ↦ some (bind_if_empty schema flat [])
      ])

  unfoldable pub pick_terminal_payload_for_report : Record → Schema → Record
  unfolding pick
  pick_terminal_payload_for_report flat schema = or_else (pick (suc (weight flat)) flat schema) []
