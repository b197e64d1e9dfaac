-- ===== src/Reports/Update/Pointwise.antt =====
-- An update after a run as a rewriting of the one report that it is for.
use roya_api.Prelude.{
  String, ℕ, ◌+◌, Bool, true, Option, none, some, List, [], ◌∷◌, ◌++◌, or_else, find, length, Memᴰ,
  ◌==◌, string_eq, ==_iff, ◌≡◌, refl, sym, ap, ◌∙◌, Bool-cases, inl, inr,
}
use roya_api.Value.{Record, at, as_record}
use roya_api.Documents.{Report, report_matches}
use roya_api.Documents.Updates.{update_one, tries_length, set_fields, remove}
use roya_api.Reports.Payload.{truncate_mongo_flow_probe_until_fits}
use roya_api.Reports.Update.{
  FlowUpdate, UpdateOptions, flow_probe, numbered, clear_legacy, overwritten, push_given,
  write_update, apply_dynamic_flow_execution_update,
}

-- The reports that have an id belong to an organization.
abbrev pub Owned : String → String → List Report → Type 0
Owned i o reports = (r : Report) → Memᴰ r reports → r.id ≡ i → r.organization_id ≡ o

abbrev pub tries_of : Report → List Record
tries_of r = or_else r.execution_tries []

-- What an update leaves as it is.
pub record Kept (x y : Report) : Type 0 where
  pub same_id : y.id ≡ x.id
  pub same_analysis : y.analysis_id ≡ x.analysis_id
  pub same_report_type : y.report_type_id ≡ x.report_type_id
  pub same_organization : y.organization_id ≡ x.organization_id

clear_legacy-Kept : (option : Option Bool) (r : Report) → Kept r (clear_legacy option r)
clear_legacy-Kept option r = elim (Bool-cases (or_else option true)) [
  | inl clear ↦ rw clear (record {
    same_id = refl;
    same_analysis = refl;
    same_report_type = refl;
    same_organization = refl;
  })
  | inr keep ↦ rw keep (record {
    same_id = refl;
    same_analysis = refl;
    same_report_type = refl;
    same_organization = refl;
  })
]

push_given-Kept :
    (t : Option Record) (n : ℕ) (fitted : Record) (x r : Report)
    → Kept x r
    → Kept x (push_given t n fitted r)
push_given-Kept none n fitted x r k = k
push_given-Kept (some t) n fitted x r k = record {
  same_id = k.same_id;
  same_analysis = k.same_analysis;
  same_report_type = k.same_report_type;
  same_organization = k.same_organization;
}

tries_of-clear_legacy :
    (option : Option Bool) (r : Report) → tries_of (clear_legacy option r) ≡ tries_of r
tries_of-clear_legacy option r = elim (Bool-cases (or_else option true)) [
  | inl clear ↦ rw clear refl
  | inr keep ↦ rw keep refl
]

module _ (size : Record → Option ℕ) (u : FlowUpdate) (options : UpdateOptions) where
  abbrev fitted : Option Record → Record
  fitted t = truncate_mongo_flow_probe_until_fits size (flow_probe u t)

  pub write_update-Kept : (n : ℕ) (r : Report) → Kept r (write_update size u options n r)
  unfolding write_update
  write_update-Kept n r =
      push_given-Kept options.execution_try n (fitted options.execution_try) r
        (overwritten (fitted options.execution_try) options.unset_legacy_stored_output r)
        (record {
          same_id = kept.same_id;
          same_analysis = kept.same_analysis;
          same_report_type = kept.same_report_type;
          same_organization = kept.same_organization;
        })
    where
      kept :
          Kept
            (set_fields (remove "__executionTry" (fitted options.execution_try)) r)
            (overwritten (fitted options.execution_try) options.unset_legacy_stored_output r)
      kept = clear_legacy-Kept options.unset_legacy_stored_output _

  -- A try is added behind the others, with the number that the call counted.
  pub tries_of-write_update :
      (t : Record) (n : ℕ) (r : Report)
      → options.execution_try ≡ some t
      → (entry : Record) × (tries_of (write_update size u options n r)
          ≡ tries_of r ++ numbered (n + 1) entry ∷ [])
  unfolding write_update
  tries_of-write_update t n r e = rw e (
    or_else (as_record (at "__executionTry" (fitted (some t)))) t,
    ap
        (λ ts.
          ts
          ++ numbered (n + 1) (or_else (as_record (at "__executionTry" (fitted (some t)))) t) ∷ [])
        (tries_of-clear_legacy options.unset_legacy_stored_output
          (set_fields (remove "__executionTry" (fitted (some t))) r)),
  )

  module _ (i o : String) (set : Record) where
    abbrev marked : List Report → List Report
    marked reports = update_one (λ r. r.id == i) (set_fields set) reports

    owner :
        (r : Report) (rs : List Report)
        → Owned i o (r ∷ rs)
        → (r.id == i) ≡ true
        → (r.organization_id == o) ≡ true
    owner r rs owned same =
        (==_iff r.organization_id o).1 (owned r (Memᴰ.head refl) ((==_iff r.id i).0 same))

    update_one_twice :
        (n : ℕ) (reports : List Report)
        → Owned i o reports
        → update_one (report_matches o i) (write_update size u options n) (marked reports)
          ≡ update_one
              (λ r. r.id == i)
              (λ r. write_update size u options n (set_fields set r))
              reports
    update_one_twice n [] owned = refl
    update_one_twice n (r ∷ rs) owned = elim (Bool-cases (r.id == i)) [
      | inl same ↦ rw same (rw same (rw (owner r rs owned same) refl))
      | inr other ↦
          rw other
            (rw other (ap (λ t. r ∷ t) (update_one_twice n rs (λ x m. owned x (Memᴰ.tail m)))))
    ]

    counted_tries :
        (n : ℕ) (reports : List Report)
        → Owned i o reports
        → tries_length (find (report_matches o i) (marked reports)) ≡ n
        → update_one
            (λ r. r.id == i)
            (λ r. write_update size u options n (set_fields set r))
            reports
          ≡ update_one
              (λ r. r.id == i)
              (λ r. write_update size u options (length (tries_of r)) (set_fields set r))
              reports
    counted_tries n [] owned h = refl
    counted_tries n (r ∷ rs) owned h = elim (Bool-cases (r.id == i)) [
      | inl same ↦
          let count : length (tries_of r) ≡ n =
            rw same at (rw (same, owner r rs owned same) at h) in
          rw same (ap (λ k. write_update size u options k (set_fields set r) ∷ rs) (sym count))
      | inr other ↦
          let later : tries_length (find (report_matches o i) (marked rs)) ≡ n =
            rw other at (rw other at h) in
          rw other (ap (λ t. r ∷ t) (counted_tries n rs (λ x m. owned x (Memᴰ.tail m)) later))
    ]

    -- The write after another that changes fields alone: both reach the first report with the id.
    pub apply-update_one :
        (reports : List Report)
        → Owned i o reports
        → apply_dynamic_flow_execution_update size o i u options (marked reports)
          ≡ update_one
              (λ r. r.id == i)
              (λ r. write_update size u options (length (tries_of r)) (set_fields set r))
              reports
    unfolding apply_dynamic_flow_execution_update
    apply-update_one reports owned =
        update_one_twice _ reports owned ∙ counted_tries _ reports owned refl
