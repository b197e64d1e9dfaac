-- ===== src/Subscriptions/Limits.antt =====
-- The monthly limit of a report type.
use roya_api.Prelude.{
  String, ℕ, suc, ◌≤◌, Option, none, some, List, [], ◌∷◌, if◌then◌else◌, find, leb, ==_refl,
  string_eq, ◌≡◌, refl, ap, arith, Bool-cases, Option-cases, inl, inr,
}
use roya_api.Prelude.Reply.{done, refused, HttpException}
use roya_api.Subscriptions.{
  Subscription, ReportLimit, Usage, limit_of, used_by, active_subscription, increment,
  reached_limit, charge, charge_subscription, check_and_increment,
}

-- The reports counted for a report type.
abbrev pub count_of : Option Usage → ℕ
count_of none = 0
count_of (some u) = u.report_count

abbrev pub larger_of_one : ℕ → ℕ
larger_of_one n = if leb n 1 then 1 else n

module _ (subscriptions : List Subscription)
    (organization_id period report_type_id slug : String) where
  abbrev counted : List Usage → ℕ
  counted usages =
      count_of (find (used_by subscriptions organization_id period report_type_id) usages)

  counted-increment :
      (usages : List Usage)
      → counted (increment subscriptions organization_id period report_type_id usages)
        ≡ suc (counted usages)
  unfolding increment
  counted-increment [] =
      rw (==_refl organization_id) (rw (==_refl report_type_id) (rw (==_refl period) refl))
  counted-increment (u ∷ us) =
      elim (Bool-cases (used_by subscriptions organization_id period report_type_id u)) [
        | inl hit ↦ rw hit (rw hit refl)
        | inr miss ↦ rw miss (rw miss (counted-increment us))
      ]

  abbrev reached_now : Subscription → List Usage → Option ℕ
  reached_now sub usages =
      reached_limit subscriptions organization_id period (limit_of sub.plan slug)
        (find (used_by subscriptions organization_id period report_type_id) usages)

  check_and_increment-charge :
      (usages : List Usage) (sub : Subscription)
      → active_subscription subscriptions organization_id period ≡ some sub
      → check_and_increment subscriptions organization_id period report_type_id slug usages
        ≡ charge subscriptions organization_id period report_type_id (reached_now sub usages) usages
  unfolding check_and_increment
  check_and_increment-charge usages sub active =
      ap (charge_subscription subscriptions organization_id period report_type_id slug usages)
        active

  below :
      (n : ℕ) (usage : Option Usage)
      → reached_limit subscriptions organization_id period (some (ReportLimit.at_most n)) usage
        ≡ none
      → suc (count_of usage) ≤ larger_of_one n
  unfolding reached_limit
  below n none h = ground arith
  below n (some u) h = ground (arith, h)

  -- A charge that is answered adds one to the count of the report type, and a limit that is at least
  -- one is kept; a charge that is refused leaves the usage as it was. A limit of 0 lets one through.
  pub check_and_increment-within :
      (usages : List Usage) (sub : Subscription)
      → active_subscription subscriptions organization_id period ≡ some sub
      → let (reply, after) =
          check_and_increment subscriptions organization_id period report_type_id slug usages in
        (reply ≡ done tt
          → (counted after ≡ suc (counted usages))
            × ((n : ℕ)
                → limit_of sub.plan slug ≡ some (ReportLimit.at_most n)
                → counted after ≤ larger_of_one n))
        × ((e : HttpException) → reply ≡ refused e → after ≡ usages)
  unfolding charge
  check_and_increment-within usages sub active =
      rw (check_and_increment-charge usages sub active)
        (elim (Option-cases (reached_now sub usages)) [
          | inl free ↦ rw free (
            λ e. (
              counted-increment usages,
              λ n limit. rw (counted-increment usages) (
                  below n
                    (find (used_by subscriptions organization_id period report_type_id) usages)
                    (rw limit at free)),
            ),
            λ e h. absurd (cc),
          )
          | inr (n, full) ↦ rw full (λ e. absurd (cc), λ e h. refl)
        ])
