-- ===== src/Documents.antt =====
-- reports/report.schema.ts, analyses/analysis.schema.ts, report-types/report-type.schema.ts and the enums of their states: the documents
-- that the services keep, and the database calls they make. An object id is its string, a time the
-- number of milliseconds. The fields of a report that are written from a payload stand in `fields`
-- under their names.
pub mod Updates
pub mod Identity
use roya_api.Prelude.{
  String, StrictEq, ℕ, Bool, true, false, ◌&&◌, Option, none, some, List, [], ◌∷◌, ◌==◌, string_eq,
  option_eq, if◌then◌else◌, ◌≡◌, ◌↔◌, arith,
}
use roya_api.Value.{Value, Record, at, as_string}

pub data ReportStatus : Type 0 where
  queued generating completed failed : ReportStatus

abbrev pub report_status_value : ReportStatus → String
report_status_value ReportStatus.queued = "queued"
report_status_value ReportStatus.generating = "generating"
report_status_value ReportStatus.completed = "completed"
report_status_value ReportStatus.failed = "failed"

pub data AnalysisStatus : Type 0 where
  draft running completed failed : AnalysisStatus

-- `===` on the members.
abbrev analysis_status_beq : AnalysisStatus → AnalysisStatus → Bool
analysis_status_beq AnalysisStatus.draft AnalysisStatus.draft = true
analysis_status_beq AnalysisStatus.running AnalysisStatus.running = true
analysis_status_beq AnalysisStatus.completed AnalysisStatus.completed = true
analysis_status_beq AnalysisStatus.failed AnalysisStatus.failed = true
analysis_status_beq _ _ = false

pub analysis_status_beq_iff : (a b : AnalysisStatus) → (analysis_status_beq a b ≡ true) ↔ (a ≡ b)
analysis_status_beq_iff AnalysisStatus.draft b = ground arith
analysis_status_beq_iff AnalysisStatus.running b = ground arith
analysis_status_beq_iff AnalysisStatus.completed b = ground arith
analysis_status_beq_iff AnalysisStatus.failed b = ground arith

instance abbrev pub analysis_status_eq : StrictEq AnalysisStatus
analysis_status_eq = record { equal = analysis_status_beq; equal_iff = analysis_status_beq_iff }

-- `executionTries` is missing from a document that it was unset in.
pub record Report : Type 0 where
  pub id : String
  pub analysis_id : String
  pub report_type_id : String
  pub organization_id : String
  pub fields : Record
  pub execution_tries : Option (List Record)

pub record Analysis : Type 0 where
  pub id : String
  pub organization_id : String
  pub created_by : String
  pub analysis_type_ids : List String
  pub title : String
  pub status : AnalysisStatus
  pub parameters : Record
  pub completed_at : Option ℕ

pub data PublicationStatus : Type 0 where
  draft published archived : PublicationStatus

abbrev pub is_published : PublicationStatus → Bool
is_published PublicationStatus.draft = false
is_published PublicationStatus.published = true
is_published PublicationStatus.archived = false

-- The flags and the price stand in `details`.
pub record ReportTypeDocument : Type 0 where
  pub id : String
  pub slug : String
  pub name : Option String
  pub localized_name : Value
  pub description : Option String
  pub localized_description : Value
  pub scope : Value
  pub organization_id : Option String
  pub details : Record
  pub status : PublicationStatus
  pub current_published_version_id : Option String
  pub draft_version_id : Option String

-- A job of `analysis-queue`.
pub record Job : Type 0 where
  pub analysis_id : String
  pub organization_id : String

pub record Store : Type 0 where
  pub analyses : List Analysis
  pub reports : List Report
  pub queue : List Job

-- `report.status === status`
abbrev pub has_status : ReportStatus → Report → Bool
has_status status r = as_string (at "status" r.fields) == some (report_status_value status)

-- `{ _id: id, organizationId }`
abbrev pub report_matches : String → String → Report → Bool
report_matches organization_id id r = r.id == id && (r.organization_id == organization_id)

abbrev pub analysis_matches : String → String → Analysis → Bool
analysis_matches organization_id id a = a.id == id && (a.organization_id == organization_id)
