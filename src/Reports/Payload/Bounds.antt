-- ===== src/Reports/Payload/Bounds.antt =====
-- What truncation does to the texts of a whole payload.
use roya_api.Prelude.{ℕ, suc, ◌+◌, ◌^◌, ◌≤◌, ◌<◌, ◌≡◌, refl, ap, arith}
use roya_api.Value.{Value, Values, Fields}
use roya_api.Reports.Payload.{truncate_deep_strings, truncate_items, truncate_fields}
use roya_api.Reports.Payload.Texts.{
  longest, longest_item, longest_field, larger-below, larger-bound, larger-le, units-truncate_text,
  truncate_text-short,
}

mutual
  unfolding truncate_deep_strings longest

  longest-truncate_value :
      (max d : ℕ) (v : Value)
      → longest v < 10 ^ suc d
      → longest (truncate_deep_strings max v) ≤ max + 27 + d
  longest-truncate_value max d Value.undefined h = omega arith
  longest-truncate_value max d Value.null h = omega arith
  longest-truncate_value max d (Value.boolean b) h = omega arith
  longest-truncate_value max d (Value.number f t) h = omega arith
  longest-truncate_value max d (Value.string s) h = units-truncate_text max d s h
  longest-truncate_value max d (Value.array vs) h = longest-truncate_items max d vs h
  longest-truncate_value max d (Value.object fs) h = longest-truncate_fields max d fs h

  longest-truncate_items :
      (max d : ℕ) (vs : Values)
      → longest_item vs < 10 ^ suc d
      → longest_item (truncate_items max vs) ≤ max + 27 + d
  longest-truncate_items max d Values.nil h = omega arith
  longest-truncate_items max d (Values.item v vs) h =
      let (p, q) = larger-below (longest v) (longest_item vs) (10 ^ suc d) h in
      larger-le _ _ _ (longest-truncate_value max d v p) (longest-truncate_items max d vs q)

  longest-truncate_fields :
      (max d : ℕ) (fs : Fields)
      → longest_field fs < 10 ^ suc d
      → longest_field (truncate_fields max fs) ≤ max + 27 + d
  longest-truncate_fields max d Fields.empty h = omega arith
  longest-truncate_fields max d (Fields.field k v fs) h =
      let (p, q) = larger-below (longest v) (longest_field fs) (10 ^ suc d) h in
      larger-le _ _ _ (longest-truncate_value max d v p) (longest-truncate_fields max d fs q)

-- Whatever the depth, no text of a truncated payload is longer than the limit and the notice: if
-- the texts of the payload have fewer than 10 ^ (d + 1) units, at most 27 + d more than the limit.
pub longest-truncate_deep_strings :
    (max d : ℕ) (v : Value)
    → longest v < 10 ^ suc d
    → longest (truncate_deep_strings max v) ≤ max + 27 + d
longest-truncate_deep_strings = longest-truncate_value

mutual
  unfolding truncate_deep_strings longest

  -- A payload of which no text is longer than the limit is left as it is.
  pub truncate_deep_strings-short :
      (max : ℕ) (v : Value) → longest v ≤ max → truncate_deep_strings max v ≡ v
  truncate_deep_strings-short max Value.undefined h = refl
  truncate_deep_strings-short max Value.null h = refl
  truncate_deep_strings-short max (Value.boolean b) h = refl
  truncate_deep_strings-short max (Value.number f t) h = refl
  truncate_deep_strings-short max (Value.string s) h = ap Value.string (truncate_text-short max s h)
  truncate_deep_strings-short max (Value.array vs) h =
      ap Value.array (truncate_items-short max vs h)
  truncate_deep_strings-short max (Value.object fs) h =
      ap Value.object (truncate_fields-short max fs h)

  truncate_items-short :
      (max : ℕ) (vs : Values) → longest_item vs ≤ max → truncate_items max vs ≡ vs
  truncate_items-short max Values.nil h = refl
  truncate_items-short max (Values.item v vs) h =
      let (p, q) = larger-bound (longest v) (longest_item vs) max h in
      cc (truncate_deep_strings-short max v p, truncate_items-short max vs q)

  pub truncate_fields-short :
      (max : ℕ) (fs : Fields) → longest_field fs ≤ max → truncate_fields max fs ≡ fs
  truncate_fields-short max Fields.empty h = refl
  truncate_fields-short max (Fields.field k v fs) h =
      let (p, q) = larger-bound (longest v) (longest_field fs) max h in
      cc (truncate_deep_strings-short max v p, truncate_fields-short max fs q)
