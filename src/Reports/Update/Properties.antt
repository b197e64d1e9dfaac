-- ===== src/Reports/Update/Properties.antt =====
-- The properties that `applyDynamicFlowExecutionUpdate` writes on a report.
use roya_api.Prelude.{
  String, ℕ, ◌≤◌, Bool, true, false, Option, none, some, [], ◌∷◌, if◌then◌else◌, All, ◌==◌, ◌++◌,
  ==_iff, string_eq, includes, ◌≡◌, refl, sym, subst, ◌∙◌, arith, Bool-cases, inl, inr,
}
use roya_api.Prelude.Dict.{get, keys, get-put_self, get-put_other}
use roya_api.Prelude.Distinct.{Distinct}
use roya_api.Value.{Value, Record, is_undefined, of_record}
use roya_api.Documents.{Report, report_status_value}
use roya_api.Reports.Payload.{truncate_deep_strings}
use roya_api.Reports.Update.{
  FlowUpdate, UpdateOptions, put_defined, put_all_defined, put_try, optional_fields, status_field,
  flow_probe, legacy_fields, write_update,
}
use roya_api.Reports.Update.Written.{
  get-put_defined, get-put_all_defined, get-write_update-status, written_at_limit,
}

-- A property as a record has it: absent where the value is `undefined`.
abbrev Given : Record → String × Value → Type 0
Given r (k, v) = get k r ≡ (if is_undefined v then none else some v)

own_put_defined :
    (k : String) (v : Value) (r : Record)
    → get k r ≡ none
    → get k (put_defined k v r) ≡ (if is_undefined v then none else some v)
own_put_defined k v r new = elim (Bool-cases (is_undefined v)) [
  | inl absent ↦ rw absent new
  | inr given ↦ rw given (get-put_self k v r)
]

put_all_defined-Given :
    (more r : Record)
    → Distinct (keys more)
    → ((k : String) → includes (keys more) k ≡ true → get k r ≡ none)
    → All (Given (put_all_defined more r)) more
put_all_defined-Given [] r d new = tt
put_all_defined-Given ((k, v) ∷ more) r (once, d) new = (
  get-put_all_defined k more (put_defined k v r) once
      ∙ own_put_defined k v r (new k (ground (arith, ==_iff k k))),
  put_all_defined-Given more (put_defined k v r) d
      (λ j m. get-put_defined k j v r (apart j m) ∙ new j (ground (arith, m))),
)
  where
    apart : (j : String) → includes (keys more) j ≡ true → (k == j) ≡ false
    apart j m = ground (arith, m, once, ==_iff k j)

get-put_try :
    (k : String) (t : Option Record) (r : Record)
    → ("__executionTry" == k) ≡ false
    → get k (put_try t r) ≡ get k r
get-put_try k none r h = refl
get-put_try k (some t) r h = get-put_other "__executionTry" k (of_record t) r h

-- The properties that an update can have besides the status.
abbrev pub properties : FlowUpdate → Record
properties u =
    ("context", u.context)
    ∷ ("errorMessage", u.error_message)
    ∷ ("generatedAt", u.generated_at)
    ∷ ("flowSnapshotVersion", u.flow_snapshot_version)
    ∷ ("branchResults", u.branch_results)
    ∷ ("flowWarnings", u.flow_warnings)
    ∷ ("requiredFailures", u.required_failures)
    ∷ []

-- A property after the update: cut at the limit if the update has it, else as it was.
abbrev pub Stored : ℕ → Record → Record → String × Value → Type 0
Stored m before after (k, v) =
    get k after ≡ (if is_undefined v then get k before else some (truncate_deep_strings m v))

-- Whether `applyDynamicFlowExecutionUpdate` may write a field, or take it off.
abbrev pub touched : FlowUpdate → String → Bool
touched u k = includes ("__executionTry" ∷ "status" ∷ (legacy_fields ++ keys (properties u))) k

probe-Given :
    (u : FlowUpdate) (t : Option Record)
    → All (Given (put_all_defined (optional_fields u) (status_field u))) (properties u)
probe-Given u t =
    put_all_defined-Given (properties u) (status_field u)
      (refl, (refl, (refl, (refl, (refl, (refl, (refl, tt)))))))
      (λ k m. elim (Bool-cases ("status" == k)) [
        | inr other ↦ rw other refl
        | inl same ↦ absurd (unlisted (subst listed (sym ((==_iff "status" k).0 same)) m))
      ])
  where
    listed : String → Type 0
    listed k = includes (keys (properties u)) k ≡ true

    unlisted : listed "status" → ⊥
    unlisted h = cc

module _ (size : Record → Option ℕ) (u : FlowUpdate) (options : UpdateOptions) (n : ℕ)
    (r : Report) where
  abbrev after : Record
  after = (write_update size u options n r).fields

  probe-get :
      (k : String) (o : Option Value)
      → ("__executionTry" == k) ≡ false
      → get k (put_all_defined (optional_fields u) (status_field u)) ≡ o
      → get k (flow_probe u options.execution_try) ≡ o
  unfolding flow_probe
  probe-get k o h e = get-put_try k options.execution_try _ h ∙ e

  -- The report has the status of the update and, cut at one limit of at least 256 units, each of its
  -- other properties that is not `undefined`; one that is `undefined` is as it was, and so is every
  -- field that is none of these, not the try and not one of the two legacy fields.
  pub write_update-Stored :
      (m : ℕ) × (256 ≤ m)
      × (get "status" after ≡ some (Value.string (report_status_value u.status)))
      × All (Stored m r.fields after) (properties u)
      × ((k : String) → touched u k ≡ false → get k after ≡ get k r.fields)
  write_update-Stored =
      let (m, large, at) = written_at_limit size u options n r in
      let property : (k : String) (v : Value)
          → includes ("__executionTry" ∷ legacy_fields) k ≡ false
          → Given (put_all_defined (optional_fields u) (status_field u)) (k, v)
          → Stored m r.fields after (k, v) =
        λ k v kept given. elim (Bool-cases (is_undefined v)) [
          | inl absent ↦
              rw absent
                ((at k kept).1 (probe-get k none (ground (arith, kept)) (rw absent at given)))
          | inr there ↦
              rw there
                ((at k kept).0 v (probe-get k (some v) (ground (arith, kept)) (rw there at given)))
        ] in
      let (context, (message, (generated, (version, (branches, (warnings, (failures, _))))))) =
        probe-Given u options.execution_try in
      (
        m,
        large,
        get-write_update-status size u options n r,
        (
          property _ _ refl context,
          (
            property _ _ refl message,
            (
              property _ _ refl generated,
              (
                property _ _ refl version,
                (
                  property _ _ refl branches,
                  (property _ _ refl warnings, (property _ _ refl failures, tt)),
                ),
              ),
            ),
          ),
        ),
        λ k other. (at k (ground (arith, other))).1 (
            probe-get k none (ground (arith, other)) (
              get-put_all_defined k (optional_fields u) (status_field u) (ground (arith, other))
              ∙ ground (arith, other, ==_iff "status" k))),
      )
