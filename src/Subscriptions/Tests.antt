-- ===== src/Subscriptions/Tests.antt =====
-- Runs of the usage limits.
use roya_api.Prelude.{ℕ, ◌≤◌, some, List, [], ◌∷◌, ◌≡◌, refl, string_eq, find}
use roya_api.Prelude.Reply.{done, refused, HttpException}
use roya_api.Subscriptions.{
  SubscriptionStatus, ReportLimit, Subscription, Usage, check_and_increment, limit_of, used_by,
}
use roya_api.Subscriptions.Limits.{check_and_increment-within, count_of, larger_of_one}

abbrev limited : ℕ → List Subscription
limited n =
    record {
      organization_id = "acme";
      status = SubscriptionStatus.active;
      plan = some (record { report_limits = some (("seo", ReportLimit.at_most n) ∷ []) });
    }
    ∷ []

abbrev used : ℕ → List Usage
used n =
    record {
      organization_id = "acme";
      report_type_id = "rt1";
      period = "2026-04";
      report_count = n;
    }
    ∷ []

-- The third report of a limit of three.
third : check_and_increment (limited 3) "acme" "2026-04" "rt1" "seo" (used 2) ≡ (done tt, used 3)
unfolding check_and_increment roya_api.Subscriptions.charge roya_api.Subscriptions.reached_limit
third = refl

-- The fourth is refused.
fourth : (check_and_increment (limited 3) "acme" "2026-04" "rt1" "seo" (used 3)).1 ≡ used 3
unfolding check_and_increment roya_api.Subscriptions.charge roya_api.Subscriptions.reached_limit
fourth = refl

-- A limit of 0 lets the first report of a month through.
first_of_none : check_and_increment (limited 0) "acme" "2026-04" "rt1" "seo" [] ≡ (done tt, used 1)
unfolding check_and_increment roya_api.Subscriptions.charge roya_api.Subscriptions.reached_limit
first_of_none = refl

check_and_increment-within_example :
    let (reply, after) = check_and_increment (limited 3) "acme" "2026-04" "rt1" "seo" (used 2) in
    (reply ≡ done tt
      → (count_of (find (used_by (limited 3) "acme" "2026-04" "rt1") after) ≡ 3)
        × ((n : ℕ)
            → limit_of
                (some (record { report_limits = some (("seo", ReportLimit.at_most 3) ∷ []) }))
                "seo"
              ≡ some (ReportLimit.at_most n)
            → count_of (find (used_by (limited 3) "acme" "2026-04" "rt1") after) ≤ larger_of_one n))
    × ((e : HttpException) → reply ≡ refused e → after ≡ used 2)
check_and_increment-within_example =
    check_and_increment-within (limited 3) "acme" "2026-04" "rt1" "seo" (used 2) _ refl
