-- ===== src/Execution/OutputSchema/Pick/Fuel.antt =====
-- Payload weights under `tryUnwrapPortOnlyPayload`, for the fuel of `pickTerminalPayloadForReport`
-- and of the search for a list.
use roya_api.Prelude.{
  String, ℕ, zero, suc, ◌+◌, ◌≤◌, true, not, ◌||◌, Option, none, some, [], ◌∷◌, ◌==◌, ==_iff,
  string_eq, is_some, ◌≡◌, refl, sym, ap, ◌∙◌, arith, Bool-cases, Option-cases, List-cases, inl,
  inr, nat_beq, length, all,
}
use roya_api.Prelude.Dict.{get, keys}
use roya_api.Value.{Value, Fields, Record, at, entries, as_list}
use roya_api.Execution.OutputSchema.{
  Schema, reserved, inner_record, try_unwrap_port_only_payload, value_weight, fields_weight, weight,
  candidate_array,
}
use roya_api.Execution.OutputSchema.Pick.{pick_direct, bind_result, pick}

weight-entries : (fs : Fields) → weight (entries fs) ≡ fields_weight fs
unfolding fields_weight
weight-entries Fields.empty = refl
weight-entries (Fields.field k v fs) = omega (arith, weight-entries fs)

inner_record-weight :
    (v : Value) (r : Record) → inner_record v ≡ some r → weight r ≤ 1 + value_weight v
unfolding value_weight
inner_record-weight Value.undefined r h = cc
inner_record-weight Value.null r h = cc
inner_record-weight (Value.boolean b) r h = cc
inner_record-weight (Value.number f t) r h = cc
inner_record-weight (Value.string s) r h = cc
inner_record-weight (Value.array vs) r h = rw (sym (inj h)) (omega arith)
  where
    inj : {a b : Record} → some a ≡ some b → a ≡ b
    inj h = cc
inner_record-weight (Value.object fs) r h = rw (sym (inj h)) (omega (arith, weight-entries fs))
  where
    inj : {a b : Record} → some a ≡ some b → a ≡ b
    inj h = cc

weight-at :
    (k : String) (flat : Record)
    → reserved k ≡ true
    → is_some (get k flat) ≡ true
    → 2 + value_weight (at k flat) ≤ weight flat
weight-at k [] port h = cc
weight-at k ((j, v) ∷ flat) port h = elim (Bool-cases (j == k)) [
  | inl e ↦ rw (e, ap reserved ((==_iff j k).0 e) ∙ port) (omega arith)
  | inr e ↦ rw e (ground (arith, weight-at k flat port (rw e at h)))
]

port-weight :
    (k : String) (flat inner : Record)
    → reserved k ≡ true
    → inner_record (at k flat) ≡ some inner
    → suc (weight inner) ≤ weight flat
port-weight k flat inner port h = elim (Option-cases (get k flat)) [
  | inl absent ↦ absurd (cc (rw absent at h))
  | inr (v, found) ↦
      omega (arith, weight-at k flat port (rw found refl), inner_record-weight (at k flat) inner h)
]

try_unwrap-weight :
    (flat inner : Record)
    → try_unwrap_port_only_payload flat ≡ some inner
    → suc (weight inner) ≤ weight flat
unfolding try_unwrap_port_only_payload
try_unwrap-weight flat inner h =
    elim (Bool-cases (nat_beq (length flat) 0 || not (all reserved (keys flat)))) [
      | inl no_port ↦ absurd (cc (rw no_port at h))
      | inr ports ↦ elim (Option-cases (inner_record (at "in" flat))) [
        | inl absent ↦ port-weight "out" flat inner refl (rw (ports, absent) at h)
        | inr (r, found) ↦ port-weight "in" flat inner refl (found ∙ (rw (ports, found) at h))
      ]
    ]

candidate_array-total :
    (fuel : ℕ) (flat : Record)
    → suc (weight flat) ≤ fuel
    → is_some (candidate_array fuel flat) ≡ true
unfolding candidate_array
candidate_array-total zero flat h = absurd (omega (arith, h))
candidate_array-total (suc fuel) flat h = elim (Option-cases (as_list (at "items" flat))) [
  | inl absent ↦ elim (Option-cases (try_unwrap_port_only_payload flat)) [
    | inl stuck ↦ rw (absent, stuck) refl
    | inr (inner, unwraps) ↦
        rw (absent, unwraps)
          (candidate_array-total fuel inner
            (omega (arith, h, try_unwrap-weight flat inner unwraps)))
  ]
  | inr (arr, found) ↦ rw found refl
]

module _ (lower_case : String → String) where
  bind_result-some :
      (schema : Schema) (flat : Record) (o : Option Record)
      → is_some o ≡ true
      → is_some (bind_result lower_case schema flat o) ≡ true
  bind_result-some schema flat none h = h
  bind_result-some schema flat (some r) h = refl

  pick-total :
      (fuel : ℕ) (flat : Record) (schema : Schema)
      → suc (weight flat) ≤ fuel
      → is_some (pick lower_case fuel flat schema) ≡ true
  unfolding pick
  pick-total zero flat schema h = absurd (omega (arith, h))
  pick-total (suc fuel) flat schema h = elim (List-cases (pick_direct lower_case schema flat)) [
    | inl empty ↦ elim (Option-cases (try_unwrap_port_only_payload flat)) [
      | inl stuck ↦ rw (empty, stuck) refl
      | inr (inner, unwraps) ↦
          rw (empty, unwraps)
            (bind_result-some schema flat (pick lower_case fuel inner schema) (
              pick-total fuel inner schema
                (omega (arith, h, try_unwrap-weight flat inner unwraps))))
    ]
    | inr (x, rest, direct) ↦ rw direct refl
  ]

  -- The recursion of `pickTerminalPayloadForReport` and that of the search for a list both end,
  -- within one round more than the payload's weight.
  pub pick-candidate_array-total :
      (flat : Record) (schema : Schema)
      → (is_some (pick lower_case (suc (weight flat)) flat schema) ≡ true)
        × (is_some (candidate_array (suc (weight flat)) flat) ≡ true)
  pick-candidate_array-total flat schema = (
    pick-total (suc (weight flat)) flat schema (omega arith),
    candidate_array-total (suc (weight flat)) flat (omega arith),
  )
