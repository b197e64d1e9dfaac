-- ===== src/ReportTypes/Legacy/Slugs.antt =====
-- Lemmas on the providers that `attachDerivedLegacyFields` collects.
use roya_api.Prelude.{
  String, true, false, Option, none, some, List, [], ◌∷◌, includes, includes-add, Memᴰ, or_option,
  ◌==◌, string_eq, ◌≡◌, refl, sym, ◌∙◌, ap, subst, inl, inr, Bool-cases,
}
use mathlib.Core.List.Memᴰ
use roya_api.FlowGraph.Definition.{AssetDoc}
use roya_api.Execution.{SnapshotNode}
use roya_api.ReportTypes.Legacy.{
  is_source, legacy_provider, slug_of_key, provider_key_of, provider_of, provider_slugs, add_filled,
}

includes-add_filled :
    (o : Option String) (slugs : List String) (a : String)
    → includes slugs a ≡ true
    → includes (add_filled o slugs) a ≡ true
includes-add_filled none slugs a h = h
includes-add_filled (some b) slugs a h = elim (Bool-cases (b == "")) [
  | inl empty ↦ rw empty h
  | inr filled ↦ rw filled ((includes-add slugs b a).1 (inl h))
]

includes-filled :
    (o : Option String) (slugs : List String) (a : String)
    → o ≡ some a
    → (a == "") ≡ false
    → includes (add_filled o slugs) a ≡ true
includes-filled o slugs a e filled =
    subst (λ x. includes (add_filled x slugs) a ≡ true) (sym e)
      (rw filled ((includes-add slugs a a).1 (inr refl)))

module _ (defs : List AssetDoc) where
  pub provider_slugs-keeps :
      (ns : List SnapshotNode) (slugs : List String) (a : String)
      → includes slugs a ≡ true
      → includes (provider_slugs defs ns slugs) a ≡ true
  unfolding provider_slugs
  provider_slugs-keeps [] slugs a h = h
  provider_slugs-keeps (n ∷ ns) slugs a h = elim (Bool-cases (is_source n)) [
    | inr other ↦ rw other (provider_slugs-keeps ns slugs a h)
    | inl source ↦ rw source (
        provider_slugs-keeps ns _ a (
          includes-add_filled (legacy_provider n) _ a
            (includes-add_filled (slug_of_key (provider_key_of defs n)) slugs a h)))
  ]

  own_slug :
      (key legacy : Option String) (slugs : List String) (a : String)
      → or_option key legacy ≡ some a
      → (a == "") ≡ false
      → includes (add_filled legacy (add_filled key slugs)) a ≡ true
  own_slug none legacy slugs a e filled = includes-filled legacy slugs a e filled
  own_slug (some b) legacy slugs a e filled =
      includes-add_filled legacy _ a (includes-filled (some b) slugs a e filled)

  pub provider_slugs-own :
      (ns : List SnapshotNode) (slugs : List String) (n : SnapshotNode) (a : String)
      → Memᴰ n ns
      → is_source n ≡ true
      → provider_of defs n ≡ some a
      → (a == "") ≡ false
      → includes (provider_slugs defs ns slugs) a ≡ true
  unfolding provider_slugs provider_of
  provider_slugs-own [] slugs n a m source e filled = absurd (Memᴰ.not-nil m)
  provider_slugs-own (k ∷ ns) slugs n a m source e filled = elim (Memᴰ.cases_cons m) [
    | inr later ↦ provider_slugs-own ns _ n a later source e filled
    | inl same ↦ rw (ap is_source (sym same) ∙ source) (
        provider_slugs-keeps ns _ a (
          own_slug (slug_of_key (provider_key_of defs k)) (legacy_provider k) slugs a
            (ap (λ x. or_option (slug_of_key (provider_key_of defs x)) (legacy_provider x))
                (sym same)
              ∙ e)
            filled))
  ]
