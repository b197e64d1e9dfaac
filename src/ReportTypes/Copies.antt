-- ===== src/ReportTypes/Copies.antt =====
-- report-types/report-types.service.ts: `create`, `rename`, `duplicate` and `remove`.
pub mod Fresh
use roya_api.Prelude.{
  String, ℕ, zero, suc, ◌+◌, Bool, true, ◌&&◌, not, Option, none, some, List, [], ◌∷◌, ◌++◌, map,
  filter, find, length, ltb, includes, if◌then◌else◌, or_else, or_option, is_some, ◌==◌, string_eq,
}
use roya_api.Prelude.Text.{template, decimal, trim}
use roya_api.Prelude.Reply.{Reply, done, refused, HttpException}
use roya_api.Value.{
  Value, Record, at, as_record, as_string, of_record, coalesce, truthy, is_undefined,
}
use roya_api.Execution.Run.{values_text}
use roya_api.Documents.{ReportTypeDocument, PublicationStatus}
use roya_api.Documents.Updates.{update_one}
use roya_api.ReportTypes.Lifecycle.{
  Version, Catalog, report_type_not_found, find_report_type, find_version, save_report_type,
  new_draft,
}

-- `resolveLocalizedTextBody`
abbrev pub resolve_localized_text_body : Value → String
resolve_localized_text_body localized =
    or_else (values_text (as_record (at "values" (or_else (as_record localized) [])))) ""

-- `a || b`
abbrev pub or_text : String → String → String
or_text a b = if a == "" then b else a

abbrev trimmed_or_empty : Option String → String
trimmed_or_empty o = trim (or_else o "")

abbrev nonempty : String → Option String
nonempty s = if s == "" then none else some s

-- Plain `name` wins; else the localized one; else the slug.
abbrev pub resolve_report_type_name : ReportTypeDocument → String
resolve_report_type_name t =
    or_text (trimmed_or_empty t.name)
      (or_text (resolve_localized_text_body t.localized_name) t.slug)

pub record CreateReportTypeDto : Type 0 where
  pub name : Option String
  pub description : Option String
  pub localized_name : Value
  pub localized_description : Value
  pub slug : String
  pub scope : Value
  pub organization_id : Option String
  pub details : Record

-- The ids of a new report type and of its first draft.
pub record NewReportType : Type 0 where
  pub report_type : String
  pub draft : String

unfoldable pub create_report_type :
    NewReportType → CreateReportTypeDto → Catalog → ReportTypeDocument × Catalog
create_report_type ids dto s =
    let created : ReportTypeDocument = record {
      id = ids.report_type;
      slug = dto.slug;
      name = some (
          or_text (trimmed_or_empty dto.name)
            (or_text (resolve_localized_text_body dto.localized_name) dto.slug));
      localized_name = dto.localized_name;
      description =
          elim (nonempty (
            or_text (trimmed_or_empty dto.description)
              (resolve_localized_text_body dto.localized_description))) [
                | none ↦ dto.description
                | some text ↦ some text
              ];
      localized_description = dto.localized_description;
      scope = dto.scope;
      organization_id = dto.organization_id;
      details = dto.details;
      status = PublicationStatus.draft;
      current_published_version_id = none;
      draft_version_id = some ids.draft;
    } in
    (
      created,
      record {
        report_types = s.report_types ++ created ∷ [];
        versions = s.versions ++ new_draft ids.draft ids.report_type 1 "en" [] [] ∷ [];
      },
    )

-- A name that is blank is refused before the report type is looked for. A description that is blank
-- is `undefined`, which Mongoose takes out of an update.
unfoldable pub rename :
    String → String → Option String → Catalog → Reply ReportTypeDocument × Catalog
rename id name description s =
    if trim name == ""
    then (refused (HttpException.bad_request "Name cannot be empty"), s)
    else elim (find_report_type id s) [
      | none ↦ (refused report_type_not_found, s)
      | some t ↦
          let renamed : ReportTypeDocument = record t {
            name = some (trim name);
            description = elim description [
              | none ↦ t.description
              | some d ↦ or_option (nonempty (trim d)) t.description
            ];
          } in
          (done renamed, save_report_type renamed s)
    ]

-- The slug with its first suffixes.
abbrev pub first_copy : String → String
first_copy slug = template (slug ∷ "-copy" ∷ [])

abbrev pub copy_slug : String → ℕ → String
copy_slug slug n = template (slug ∷ "-copy-" ∷ decimal n ∷ [])

-- `while (await this.model.findOne({ slug: copySlug }))`, from the suffix `n`; `none` if the fuel
-- runs out.
pub next_free : String → List String → ℕ → ℕ → Option String
next_free slug taken zero n = none
next_free slug taken (suc fuel) n =
    let rest = next_free slug taken fuel (suc n) in
    if includes taken (copy_slug slug n) then rest else some (copy_slug slug n)

-- With one round more than there are slugs.
unfoldable pub free_slug : String → List String → Option String
unfolding next_free
free_slug slug taken =
    if includes taken (first_copy slug)
    then next_free slug taken (suc (length taken)) 2
    else some (first_copy slug)

-- `${text} (copy)` on every language.
abbrev copied_values : Record → Record
copied_values [] = []
copied_values ((lang, text) ∷ r) =
    (lang, Value.string (template (or_else (as_string text) "" ∷ " (copy)" ∷ []))) ∷ copied_values r

-- `duplicateValues(localized) ?? localized`; the values of a localized text are strings.
abbrev duplicate_values : Value → Value
duplicate_values localized = elim (as_record localized) [
  | none ↦ localized
  | some r ↦ elim (as_record (at "values" r)) [
    | none ↦ localized
    | some values ↦ of_record (
        ("defaultLanguage", coalesce (at "defaultLanguage" r) (Value.string "en"))
        ∷ ("values", of_record (copied_values values))
        ∷ [])
  ]
]

-- The version whose flow is copied: the draft, or else the published one.
abbrev copied_version : ReportTypeDocument → Catalog → Option Version
copied_version t s = elim t.draft_version_id [
  | some id ↦ find_version id s
  | none ↦ elim t.current_published_version_id [ none ↦ none | some id ↦ find_version id s ]
]

abbrev copy_of : NewReportType → String → ReportTypeDocument → Option Version → ReportTypeDocument
copy_of ids slug t version = record {
  id = ids.report_type;
  slug = slug;
  name = some (template (resolve_report_type_name t ∷ " (copy)" ∷ []));
  localized_name = duplicate_values t.localized_name;
  description = t.description;
  localized_description = t.localized_description;
  scope = t.scope;
  organization_id = t.organization_id;
  details = t.details;
  status = PublicationStatus.draft;
  current_published_version_id = none;
  draft_version_id = if is_some version then some ids.draft else none;
}

abbrev draft_of_copy : NewReportType → Option Version → List Version
draft_of_copy ids none = []
draft_of_copy ids (some v) =
    new_draft ids.draft ids.report_type 1 v.default_language v.flow_nodes v.flow_connections ∷ []

-- The copy with its slug, put into the catalog.
abbrev pub duplicated :
    NewReportType → ReportTypeDocument → String → Catalog → ReportTypeDocument × Catalog
duplicated ids t slug s =
    let version : Option Version = copied_version t s in
    let copy : ReportTypeDocument = copy_of ids slug t version in
    (
      copy,
      record {
        report_types = s.report_types ++ copy ∷ [];
        versions = s.versions ++ draft_of_copy ids version;
      },
    )

abbrev pub duplicate_as :
    NewReportType
    → ReportTypeDocument
    → Option String
    → Catalog
    → Option (Reply ReportTypeDocument × Catalog)
duplicate_as ids t none s = none
duplicate_as ids t (some slug) s =
    let (copy, after) = duplicated ids t slug s in some (done copy, after)

abbrev pub slugs_of : Catalog → List String
slugs_of s = map (λ t. t.slug) s.report_types

abbrev pub duplicate_found :
    NewReportType
    → Option ReportTypeDocument
    → Catalog
    → Option (Reply ReportTypeDocument × Catalog)
duplicate_found ids none s = some (refused report_type_not_found, s)
duplicate_found ids (some t) s = duplicate_as ids t (free_slug t.slug (slugs_of s)) s

-- `none` if the search for a slug does not end.
unfoldable pub duplicate :
    NewReportType → String → Catalog → Option (Reply ReportTypeDocument × Catalog)
duplicate ids id s = duplicate_found ids (find_report_type id s) s

-- `usage` counts the analysis types that refer to the report type.
unfoldable pub remove_report_type : (String → ℕ) → String → Catalog → Reply {0} Unit × Catalog
remove_report_type usage id s = elim (find_report_type id s) [
  | none ↦ (refused report_type_not_found, s)
  | some t ↦
      if ltb 0 (usage id)
      then (
        refused (
            HttpException.conflict (
              template (
                "Cannot delete: "
                ∷ decimal (usage id)
                ∷ " analysis type(s) reference this report type"
                ∷ []))),
        s,
      )
      else (
        done tt,
        record {
          report_types = filter (λ x. not (x.id == id)) s.report_types;
          versions = filter (λ v. not (v.report_type_id == id)) s.versions;
        },
      )
]
