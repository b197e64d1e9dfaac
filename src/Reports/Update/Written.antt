-- ===== src/Reports/Update/Written.antt =====
-- What `applyDynamicFlowExecutionUpdate` leaves on a report.
use roya_api.Prelude.{
  String, ℕ, ◌≤◌, Bool, true, false, Option, none, some, [], ◌∷◌, or_else, or_option, ◌==◌,
  string_eq, includes, ◌≡◌, refl, sym, subst, ap, ◌∙◌, arith, Bool-cases, inl, inr,
}
use roya_api.Prelude.Dict.{get, keys, get-put_other, Distinct-put}
use roya_api.Prelude.Distinct.{Distinct}
use roya_api.Value.{Value, Record, is_undefined, of_record}
use roya_api.Documents.{Report, ReportStatus, report_status_value}
use roya_api.Documents.Updates.{set_fields, remove, get-remove, Distinct-remove, get-assign}
use roya_api.Reports.Payload.{truncate_mongo_flow_probe_until_fits, truncate_deep_strings}
use roya_api.Reports.Payload.Levels.{
  truncate_mongo_flow_probe_until_fits_limit, truncated, keys-truncated, get-truncated,
}
use roya_api.Reports.Payload.Texts.{longest}
use roya_api.Reports.Payload.Bounds.{truncate_deep_strings-short}
use roya_api.Reports.Update.{
  FlowUpdate, UpdateOptions, put_defined, put_all_defined, put_try, optional_fields, status_field,
  flow_probe, legacy_fields, clear_legacy, push_given, write_update,
}

Distinct-put_defined :
    (k : String) (v : Value) (r : Record) → Distinct (keys r) → Distinct (keys (put_defined k v r))
Distinct-put_defined k v r h = elim (Bool-cases (is_undefined v)) [
  | inl absent ↦ rw absent h
  | inr given ↦ rw given (Distinct-put k v r h)
]

pub get-put_defined :
    (k j : String) (v : Value) (r : Record) → (k == j) ≡ false → get j (put_defined k v r) ≡ get j r
get-put_defined k j v r other = elim (Bool-cases (is_undefined v)) [
  | inl absent ↦ rw absent refl
  | inr given ↦ rw given (get-put_other k j v r other)
]

Distinct-put_all_defined :
    (more r : Record) → Distinct (keys r) → Distinct (keys (put_all_defined more r))
Distinct-put_all_defined [] r h = h
Distinct-put_all_defined ((k, v) ∷ more) r h =
    Distinct-put_all_defined more (put_defined k v r) (Distinct-put_defined k v r h)

pub get-put_all_defined :
    (j : String) (more r : Record)
    → includes (keys more) j ≡ false
    → get j (put_all_defined more r) ≡ get j r
get-put_all_defined j [] r other = refl
get-put_all_defined j ((k, v) ∷ more) r other =
    get-put_all_defined j more (put_defined k v r) (ground (arith, other))
    ∙ get-put_defined k j v r (ground (arith, other))

Distinct-flow_probe : (u : FlowUpdate) (t : Option Record) → Distinct (keys (flow_probe u t))
unfolding flow_probe
Distinct-flow_probe u t =
    with_try t (put_all_defined (optional_fields u) (status_field u))
      (Distinct-put_all_defined (optional_fields u) (status_field u) (refl, tt))
  where
    with_try : (t : Option Record) (r : Record) → Distinct (keys r) → Distinct (keys (put_try t r))
    with_try none r h = h
    with_try (some t) r h = Distinct-put "__executionTry" (of_record t) r h

pub get-flow_probe-status :
    (u : FlowUpdate) (t : Option Record)
    → get "status" (flow_probe u t) ≡ some (Value.string (report_status_value u.status))
unfolding flow_probe
get-flow_probe-status u t =
    with_try t (put_all_defined (optional_fields u) (status_field u))
      (get-put_all_defined "status" (optional_fields u) (status_field u) refl)
  where
    with_try :
        (t : Option Record) (r : Record)
        → get "status" r ≡ some (Value.string (report_status_value u.status))
        → get "status" (put_try t r) ≡ some (Value.string (report_status_value u.status))
    with_try none r h = h
    with_try (some t) r h = get-put_other "__executionTry" "status" (of_record t) r refl ∙ h

-- A property that an update has and that is no legacy field is on the report afterwards.
get-clear_legacy :
    (option : Option Bool) (k : String) (r : Report)
    → includes legacy_fields k ≡ false
    → get k (clear_legacy option r).fields ≡ get k r.fields
get-clear_legacy option k r h = elim (Bool-cases (or_else option true)) [
  | inl clear ↦ rw clear (
      ground (
        arith,
        h,
        get-remove "data" k r.fields,
        get-remove "dataWithTypes" k (remove "data" r.fields),
      ))
  | inr keep ↦ rw keep refl
]

abbrev written_fields : Record → Option Bool → Report → Record
written_fields fitted option r =
    (clear_legacy option (set_fields (remove "__executionTry" fitted) r)).fields

fields-push_given :
    (t : Option Record) (n : ℕ) (fitted : Record) (r : Report)
    → (push_given t n fitted r).fields ≡ r.fields
fields-push_given none n fitted r = refl
fields-push_given (some t) n fitted r = refl

-- A property of the payload is on the report afterwards, unless it is taken off again; one that the
-- payload does not have is as before.
get-written_fields :
    (k : String) (fitted : Record) (option : Option Bool) (r : Report)
    → Distinct (keys fitted)
    → includes ("__executionTry" ∷ legacy_fields) k ≡ false
    → get k (written_fields fitted option r) ≡ or_option (get k fitted) (get k r.fields)
get-written_fields k fitted option r distinct kept =
    get-clear_legacy option k (set_fields (remove "__executionTry" fitted) r) (ground (arith, kept))
    ∙ get-assign k r.fields (remove "__executionTry" fitted)
        (Distinct-remove "__executionTry" fitted distinct)
    ∙ ap (λ o. or_option o (get k r.fields)) present
  where
    present : get k (remove "__executionTry" fitted) ≡ get k fitted
    present = ground (arith, get-remove "__executionTry" k fitted, kept)

get-truncated-none :
    (k : String) (probe : Record) (m : ℕ) → get k probe ≡ none → get k (truncated probe m) ≡ none
unfolding truncate_deep_strings
get-truncated-none k [] m h = refl
get-truncated-none k ((j, w) ∷ r) m h = elim (Bool-cases (j == k)) [
  | inl same ↦ absurd (ground (arith, h, same))
  | inr other ↦ rw other (get-truncated-none k r m (ground (arith, h, other)))
]

module _ (size : Record → Option ℕ) (u : FlowUpdate) (options : UpdateOptions) (n : ℕ)
    (r : Report) where
  abbrev after : Record
  after = (write_update size u options n r).fields

  -- Each property of the payload is on the report, cut at the limit; one that it does not have is
  -- as before.
  pub written_at_limit :
      (m : ℕ) × (256 ≤ m)
      × ((k : String)
          → includes ("__executionTry" ∷ legacy_fields) k ≡ false
          → ((v : Value)
              → get k (flow_probe u options.execution_try) ≡ some v
              → get k after ≡ some (truncate_deep_strings m v))
            × (get k (flow_probe u options.execution_try) ≡ none → get k after ≡ get k r.fields))
  unfolding write_update
  written_at_limit =
      let probe = flow_probe u options.execution_try in
      let (m, large, cut) = truncate_mongo_flow_probe_until_fits_limit size probe in
      let distinct : Distinct (keys (truncate_mongo_flow_probe_until_fits size probe)) =
        subst (λ f. Distinct (keys f)) (sym cut)
          (subst Distinct (sym (keys-truncated probe m))
            (Distinct-flow_probe u options.execution_try)) in
      let written : (k : String)
          → includes ("__executionTry" ∷ legacy_fields) k ≡ false
          → get k after ≡ or_option (get k (truncated probe m)) (get k r.fields) =
        λ k kept.
          ap (get k) (fields-push_given options.execution_try n _ _)
          ∙ get-written_fields k _ options.unset_legacy_stored_output r distinct kept
          ∙ ap (λ f. or_option (get k f) (get k r.fields)) cut in
      (
        m,
        large,
        λ k kept. (
          λ v h.
              written k kept ∙ ap (λ o. or_option o (get k r.fields)) (get-truncated k v probe m h),
          λ h.
              written k kept
              ∙ ap (λ o. or_option o (get k r.fields)) (get-truncated-none k probe m h),
        ),
      )

  -- The report has the status of the update.
  pub get-write_update-status :
      get "status" (write_update size u options n r).fields
      ≡ some (Value.string (report_status_value u.status))
  unfolding longest
  get-write_update-status =
      let (m, large, written) = written_at_limit in
      (written "status" refl).0 _ (get-flow_probe-status u options.execution_try)
      ∙ ap some (
          truncate_deep_strings-short m (Value.string (report_status_value u.status))
            (status_short u.status m large))
    where
      status_short :
          (s : ReportStatus) (m : ℕ) → 256 ≤ m → longest (Value.string (report_status_value s)) ≤ m
      status_short ReportStatus.queued m h = omega (arith, h)
      status_short ReportStatus.generating m h = omega (arith, h)
      status_short ReportStatus.completed m h = omega (arith, h)
      status_short ReportStatus.failed m h = omega (arith, h)
