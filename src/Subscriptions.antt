-- ===== src/Subscriptions.antt =====
-- subscriptions/subscriptions.service.ts, `checkAndIncrement`: the usage of a report type in a month.
-- `period` is the month that the clock gives. A limit of -1 is `unlimited`; a limit is a whole number.
mod Tests
pub mod Limits
use roya_api.Prelude.{
  String, ℕ, suc, Bool, true, false, ◌&&◌, Option, none, some, List, [], ◌∷◌, ◌++◌, if◌then◌else◌,
  find, leb, ◌==◌, string_eq,
}
use roya_api.Prelude.Dict.{get}
use roya_api.Prelude.Text.{template, decimal}
use roya_api.Prelude.Reply.{Reply, done, refused, HttpException}

pub data SubscriptionStatus : Type 0 where
  active trialing cancelled expired : SubscriptionStatus

abbrev pub is_active : SubscriptionStatus → Bool
is_active SubscriptionStatus.active = true
is_active SubscriptionStatus.trialing = false
is_active SubscriptionStatus.cancelled = false
is_active SubscriptionStatus.expired = false

pub data ReportLimit : Type 0 where
  unlimited : ReportLimit
  at_most : ℕ → ReportLimit

pub record Plan : Type 0 where
  pub report_limits : Option (List (String × ReportLimit))

pub record Subscription : Type 0 where
  pub organization_id : String
  pub status : SubscriptionStatus
  pub plan : Option Plan

pub record Usage : Type 0 where
  pub organization_id : String
  pub report_type_id : String
  pub period : String
  pub report_count : ℕ

-- `plan?.reportLimits?.get(slug)`
abbrev pub limit_of : Option Plan → String → Option ReportLimit
limit_of none slug = none
limit_of (some plan) slug = elim plan.report_limits [ none ↦ none | some limits ↦ get slug limits ]

module _ (subscriptions : List Subscription) (organization_id period : String) where
  abbrev pub used_by : String → Usage → Bool
  used_by report_type_id u =
      u.organization_id == organization_id
      && (u.report_type_id == report_type_id)
      && (u.period == period)

  abbrev pub active_subscription : Option Subscription
  active_subscription =
      find (λ s. s.organization_id == organization_id && is_active s.status) subscriptions

  -- `findOneAndUpdate` with `$inc`, `$setOnInsert` and `upsert`.
  unfoldable pub increment : String → List Usage → List Usage
  increment report_type_id [] =
      record {
        organization_id = organization_id;
        report_type_id = report_type_id;
        period = period;
        report_count = 1;
      }
      ∷ []
  increment report_type_id (u ∷ us) =
      if used_by report_type_id u
      then (record u { report_count = suc u.report_count }) ∷ us
      else u ∷ increment report_type_id us

  -- The limit that the usage has reached.
  unfoldable pub reached_limit : Option ReportLimit → Option Usage → Option ℕ
  reached_limit none usage = none
  reached_limit (some ReportLimit.unlimited) usage = none
  reached_limit (some (ReportLimit.at_most n)) none = none
  reached_limit (some (ReportLimit.at_most n)) (some u) =
      if leb n u.report_count then some n else none

  unfoldable pub charge : String → Option ℕ → List Usage → Reply {0} Unit × List Usage
  unfolding increment
  charge report_type_id none usages = (done tt, increment report_type_id usages)
  charge report_type_id (some n) usages = (
    refused (
        HttpException.forbidden
          (template ("Monthly limit reached for this report type (" ∷ decimal n ∷ ")" ∷ []))),
    usages,
  )

  abbrev pub charge_subscription :
      String → String → List Usage → Option Subscription → Reply {0} Unit × List Usage
  charge_subscription report_type_id slug usages none =
      (refused (HttpException.not_found "No active subscription"), usages)
  charge_subscription report_type_id slug usages (some sub) =
      charge report_type_id
        (reached_limit (limit_of sub.plan slug) (find (used_by report_type_id) usages)) usages

  unfoldable pub check_and_increment : String → String → List Usage → Reply {0} Unit × List Usage
  check_and_increment report_type_id slug usages =
      charge_subscription report_type_id slug usages active_subscription
