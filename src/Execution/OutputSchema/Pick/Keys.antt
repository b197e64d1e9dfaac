-- ===== src/Execution/OutputSchema/Pick/Keys.antt =====
-- The keys that each step of `pickTerminalPayloadForReport` sets.
use roya_api.Prelude.{
  String, ℕ, zero, suc, true, Option, none, some, List, [], ◌∷◌, ==_iff, string_eq, includes,
  length, ltb, ◌≡◌, refl, arith, Bool-cases, List-cases, Option-cases, subst, sym, ◌∙◌, ◌≤◌, ◌⊎◌,
  inl, inr,
}
use roya_api.Prelude.Distinct.{Within}
use roya_api.Prelude.Dict.{put, keys, get-put, includes-keys}
use roya_api.Value.{Value, Record, is_undefined}
use roya_api.Execution.OutputSchema.{
  Schema, try_unwrap_port_only_payload, weight, extract_ordered_candidate_array, bind_keys,
  normalize_port_cell_to_scalar,
}
use roya_api.Execution.OutputSchema.Pick.{
  value_for_output_schema_key, pick_keys, pick_direct, bind_list, bind_if_empty, bind_result, pick,
  pick_terminal_payload_for_report,
}

bind_keys-Within :
    (schema : Schema) (arr : List Value) (out : Record) (k : String)
    → includes (keys (bind_keys schema arr out)) k ≡ true
    → (includes (keys out) k ≡ true) ⊎ (includes (keys schema) k ≡ true)
unfolding bind_keys
bind_keys-Within [] arr out k h = inl h
bind_keys-Within (e ∷ schema) [] out k h = inl h
bind_keys-Within (e ∷ schema) (v ∷ arr) out k h =
    let w = normalize_port_cell_to_scalar v in
    ground (
      arith,
      bind_keys-Within schema arr (put e.0 w out) k h,
      get-put e.0 k w out,
      includes-keys k (put e.0 w out),
      includes-keys k out,
      ==_iff e.0 k,
    )

some-injective : {a b : Record} → some a ≡ some b → a ≡ b
some-injective h = cc

module _ (lower_case : String → String) where
  pick_keys-Within :
      (schema : Schema) (flat out : Record) (k : String)
      → includes (keys (pick_keys lower_case schema flat out)) k ≡ true
      → (includes (keys out) k ≡ true) ⊎ (includes (keys schema) k ≡ true)
  unfolding pick_keys
  pick_keys-Within [] flat out k h = inl h
  pick_keys-Within (e ∷ schema) flat out k h =
      let v = value_for_output_schema_key lower_case flat e.0 in
      elim (Bool-cases (is_undefined v)) [
        | inl u ↦ ground (arith, pick_keys-Within schema flat out k (rw u at h))
        | inr u ↦ ground (
          arith,
          pick_keys-Within schema flat (put e.0 v out) k (rw u at h),
          get-put e.0 k v out,
          includes-keys k (put e.0 v out),
          includes-keys k out,
          ==_iff e.0 k,
        )
      ]

  bind_if_empty-Within :
      (e : String × String) (schema : Schema) (flat r : Record)
      → Within (keys r) (keys (e ∷ schema))
      → Within (keys (bind_if_empty lower_case (e ∷ schema) flat r)) (keys (e ∷ schema))
  unfolding bind_if_empty
  bind_if_empty-Within e schema flat [] w k h = bound (extract_ordered_candidate_array flat) h
    where
      bound :
          (o : Option (List Value))
          → includes (keys (bind_list lower_case (e ∷ schema) o)) k ≡ true
          → includes (keys (e ∷ schema)) k ≡ true
      bound none q = cc
      bound (some arr) q = elim (Bool-cases (ltb 0 (length arr))) [
        | inl b ↦ ground (arith, bind_keys-Within (e ∷ schema) arr [] k (rw b at q))
        | inr b ↦ cc (rw b at q)
      ]
  bind_if_empty-Within e schema flat (x ∷ r) w k h = w k h

  bind_result-Within :
      (e : String × String) (schema : Schema) (flat r : Record) (o : Option Record)
      → ((q : Record) → o ≡ some q → Within (keys q) (keys (e ∷ schema)))
      → bind_result lower_case (e ∷ schema) flat o ≡ some r
      → Within (keys r) (keys (e ∷ schema))
  bind_result-Within e schema flat r none w h = cc
  bind_result-Within e schema flat r (some q) w h =
      subst (λ x. Within (keys x) (keys (e ∷ schema))) (some-injective h)
        (bind_if_empty-Within e schema flat q (w q refl))

  pick_direct-Within :
      (e : String × String) (schema : Schema) (flat : Record)
      → Within (keys (pick_direct lower_case (e ∷ schema) flat)) (keys (e ∷ schema))
  unfolding pick_direct
  pick_direct-Within e schema flat k h = ground (arith, pick_keys-Within (e ∷ schema) flat [] k h)

  pick-Within :
      (fuel : ℕ) (flat r : Record) (e : String × String) (schema : Schema)
      → pick lower_case fuel flat (e ∷ schema) ≡ some r
      → Within (keys r) (keys (e ∷ schema))
  unfolding pick
  pick-Within zero flat r e schema h = cc
  pick-Within (suc fuel) flat r e schema h =
      elim (List-cases (pick_direct lower_case (e ∷ schema) flat)) [
        | inl empty ↦ elim (Option-cases (try_unwrap_port_only_payload flat)) [
          | inl stuck ↦
              bind_result-Within e schema flat r (some [])
                (λ q same k m. cc (rw (sym (some-injective same)) at m)) (rw (empty, stuck) at h)
          | inr (inner, unwraps) ↦
              bind_result-Within e schema flat r (pick lower_case fuel inner (e ∷ schema))
                (λ q found. pick-Within fuel inner q e schema found) (rw (empty, unwraps) at h)
        ]
        | inr (x, rest, direct) ↦
            bind_result-Within e schema flat r (some (x ∷ rest))
              (λ q same.
                subst (λ d. Within (keys d) (keys (e ∷ schema))) (direct ∙ some-injective same)
                  (pick_direct-Within e schema flat))
              (rw direct at h)
      ]

  -- If a schema has keys, what `pickTerminalPayloadForReport` returns has no other keys.
  pub pick_terminal_payload_for_report-Within :
      (flat : Record) (schema : Schema)
      → 1 ≤ length schema
      → Within (keys (pick_terminal_payload_for_report lower_case flat schema)) (keys schema)
  unfolding pick_terminal_payload_for_report
  pick_terminal_payload_for_report-Within flat [] h = absurd (omega (arith, h))
  pick_terminal_payload_for_report-Within flat (e ∷ schema) h =
      elim (Option-cases (pick lower_case (suc (weight flat)) flat (e ∷ schema))) [
        | inl out ↦ rw out (λ k m. cc)
        | inr (r, found) ↦ rw found (pick-Within (suc (weight flat)) flat r e schema found)
      ]
