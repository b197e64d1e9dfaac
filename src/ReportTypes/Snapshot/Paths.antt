-- ===== src/ReportTypes/Snapshot/Paths.antt =====
-- The paths of a published snapshot lead from an entry of the flow to its terminals.
use roya_api.Prelude.{
  String, ℕ, zero, suc, ◌+◌, Bool, true, false, Option, none, some, List, [], ◌∷◌, ◌++◌, map,
  append-nil, append_assoc, All, All-append, Memᴰ, filter, includes, includes-add, add, length,
  ◌==◌, ==_iff, ==_refl, ◌≤◌, string_eq, ◌≡◌, ◌≢◌, refl, sym, subst, ap, ◌∙◌, arith, ◌⊎◌, inl, inr,
  Bool-cases,
}
use roya_api.FlowGraph.{FlowNodePlain, FlowConnectionPlain}
use roya_api.FlowGraph.Reached.{push_targets, visit}
use roya_api.FlowGraph.Reached.Correct.{Reach, visit-Reach}
use roya_api.ReportTypes.Snapshot.{
  path_roots, Adjacency, adjacency, Reaching, search, bfs_path, path_to,
}
use roya_api.ReportTypes.Snapshot.Targets.{known, targets, adjacency-targets}

-- A path along connections from a root.
pub data PathTo (cs : List FlowConnectionPlain) (roots : List String)
    : String → List String → Type 0 where
  at_root : {v : String} → includes roots v ≡ true → PathTo cs roots v (v ∷ [])
  onward :
      {u v : String} {path : List String} (c : FlowConnectionPlain)
      → Memᴰ c cs
      → c.source.node_id ≡ u
      → c.target.node_id ≡ v
      → PathTo cs roots u path
      → PathTo cs roots v (path ++ v ∷ [])

abbrev ids_of : List Reaching → List String
ids_of = map (λ r. r.0)

ids_of-append : (q : List Reaching) (r : Reaching) → ids_of (q ++ r ∷ []) ≡ ids_of q ++ r.0 ∷ []
ids_of-append [] r = refl
ids_of-append (x ∷ q) r = ap (λ t. x.0 ∷ t) (ids_of-append q r)

ids_of-pushed :
    (u : String) (path : List String) (cs : List FlowConnectionPlain) (q : List Reaching)
    → ids_of (q ++ map (λ next. (next, path ++ next ∷ [])) (targets u cs))
      ≡ push_targets u cs (ids_of q)
unfolding push_targets
ids_of-pushed u path [] q = ap ids_of (append-nil q)
ids_of-pushed u path (c ∷ cs) q = elim (Bool-cases (c.source.node_id == u)) [
  | inl same ↦ rw same (
      ap ids_of (sym (append_assoc q ((c.target.node_id, path ++ c.target.node_id ∷ []) ∷ []) _))
      ∙ ids_of-pushed u path cs (q ++ (c.target.node_id, path ++ c.target.node_id ∷ []) ∷ [])
      ∙ ap (push_targets u cs) (ids_of-append q (c.target.node_id, path ++ c.target.node_id ∷ [])))
  | inr other ↦ rw other (ids_of-pushed u path cs q)
]

module _ (ns : List FlowNodePlain) (cs : List FlowConnectionPlain) (start : List String)
    (target : String) where
  abbrev adj : Adjacency
  adj = adjacency ns cs

  -- An entry of the queue whose path leads to its id.
  abbrev Leads : Reaching → Type 0
  Leads (id, path) = PathTo (known ns cs) start id path

  -- What the search gives, beside what the plain search of ids does.
  abbrev Outcome : Option (List String) → Option (List String) → Type 0
  Outcome s v =
      ((path : List String) × (s ≡ some path) × PathTo (known ns cs) start target path)
      ⊎ ((s ≡ some []) × ((r : List String) × (v ≡ some r) × (includes r target ≡ false)))
      ⊎ ((s ≡ none) × (v ≡ none))

  pushed-Leads :
      (u : String) (path : List String) (more : List FlowConnectionPlain)
      → ((c : FlowConnectionPlain) → Memᴰ c more → Memᴰ c (known ns cs))
      → PathTo (known ns cs) start u path
      → All Leads (map (λ next. (next, path ++ next ∷ [])) (targets u more))
  pushed-Leads u path [] within h = tt
  pushed-Leads u path (c ∷ more) within h = elim (Bool-cases (c.source.node_id == u)) [
    | inl same ↦ rw same (
      onward c (within c (Memᴰ.head refl)) ((==_iff c.source.node_id u).0 same) refl h,
      pushed-Leads u path more (λ d m. within d (Memᴰ.tail m)) h,
    )
    | inr other ↦ rw other (pushed-Leads u path more (λ d m. within d (Memᴰ.tail m)) h)
  ]

  search-Outcome :
      (fuel : ℕ) (q : List Reaching) (seen : List String)
      → All Leads q
      → includes seen target ≡ false
      → Outcome (search target adj fuel q seen) (visit (known ns cs) fuel (ids_of q) seen)
  unfolding search visit
  search-Outcome zero [] seen h new = inr (inl (refl, (seen, refl, new)))
  search-Outcome (suc fuel) [] seen h new = inr (inl (refl, (seen, refl, new)))
  search-Outcome zero (r ∷ q) seen h new = inr (inr (refl, refl))
  search-Outcome (suc fuel) ((id, path) ∷ q) seen (leads, h) new =
      elim (Bool-cases (id == target)) [
        | inl hit ↦ rw hit (
            inl (
              path,
              refl,
              subst (λ i. PathTo (known ns cs) start i path) ((==_iff id target).0 hit) leads,
            ))
        | inr miss ↦ rw miss (elim (Bool-cases (includes seen id)) [
          | inl old ↦ rw old (search-Outcome fuel q seen h new)
          | inr fresh ↦ rw fresh (
              subst
                (λ ts.
                  Outcome
                    (search target adj fuel (q ++ map (λ next. (next, path ++ next ∷ [])) ts)
                      (add seen id))
                    (visit (known ns cs) fuel (push_targets id (known ns cs) (ids_of q))
                      (add seen id)))
                (sym (adjacency-targets id ns cs))
                (subst
                  (λ ids.
                    Outcome
                      (search target adj fuel
                        (q ++ map (λ next. (next, path ++ next ∷ [])) (targets id (known ns cs)))
                        (add seen id))
                      (visit (known ns cs) fuel ids (add seen id)))
                  (ids_of-pushed id path (known ns cs) q)
                  (search-Outcome fuel
                    (q ++ map (λ next. (next, path ++ next ∷ [])) (targets id (known ns cs)))
                    (add seen id)
                    (All-append Leads q _ h (pushed-Leads id path (known ns cs) (λ c m. m) leads))
                    (ground (arith, includes-add seen id target, ==_iff id target, new, miss)))))
        ])
      ]

length-filter :
    (p : FlowConnectionPlain → Bool) (cs : List FlowConnectionPlain)
    → length (filter p cs) ≤ length cs
length-filter p [] = omega arith
length-filter p (c ∷ cs) = ground (arith, length-filter p cs)

module _ (ns : List FlowNodePlain) (cs : List FlowConnectionPlain) where
  -- The entries of the flow.
  abbrev pub entries : List String
  entries = path_roots ns cs

  roots-Leads :
      (rs : List String)
      → ((v : String) → includes rs v ≡ true → includes entries v ≡ true)
      → All (λ (r : Reaching). PathTo (known ns cs) entries r.0 r.1) (map (λ r. (r, r ∷ [])) rs)
  roots-Leads [] within = tt
  roots-Leads (r ∷ rs) within = (
    at_root (within r (ground (arith, ==_refl r))),
    roots-Leads rs (λ v h. within v (ground (arith, h))),
  )

  ids_of-roots : (rs : List String) → ids_of (map (λ r. (r, r ∷ [])) rs) ≡ rs
  ids_of-roots [] = refl
  ids_of-roots (r ∷ rs) = ap (λ t. r ∷ t) (ids_of-roots rs)

  -- What `path_to` finds: a path to the node, or nothing where the connections do not lead to it.
  abbrev pub Found : String → List String → Type 0
  Found target path =
      PathTo (known ns cs) entries target path
      ⊎ ((path ≡ []) × (Reach (known ns cs) entries target → ⊥))

  pub path_to-Found : (target : String) → Found target (path_to ns cs target)
  unfolding path_to bfs_path
  path_to-Found target =
      let (reached, ended, decides) =
        visit-Reach (known ns cs) entries (length entries + length cs) (
          omega
            (arith, length-filter (λ c. includes (map (λ n. n.node_id) ns) c.source.node_id) cs)) in
      elim (search-Outcome ns cs entries target (length entries + length cs)
        (map (λ r. (r, r ∷ [])) entries) [] (roots-Leads entries (λ v h. h)) refl) [
          | inl (path, found, leads) ↦ rw found (inl leads)
          | inr (inl (nothing, (r, done, unreached))) ↦
              let same : some reached ≡ some r =
                sym ended
                ∙ ap (λ q. visit (known ns cs) (length entries + length cs) q [])
                    (sym (ids_of-roots entries))
                ∙ done in
              rw nothing (
                inr (
                  refl,
                  λ h.
                      let there : includes reached target ≡ true = (decides target).1 h in
                      let equal : reached ≡ r = cc same in
                      absurd (cc (sym there ∙ ap (λ l. includes l target) equal ∙ unreached)),
                ))
          | inr (inr (out, stuck)) ↦ absurd (
              cc (
                sym ended
                ∙ ap (λ q. visit (known ns cs) (length entries + length cs) q [])
                    (sym (ids_of-roots entries))
                ∙ stuck))
        ]

  pub PathTo-ends :
      {v : String} {path : List String} → PathTo (known ns cs) entries v path → path ≢ []
  PathTo-ends (at_root h) e = cc e
  PathTo-ends (onward {path = []} c m s t p) e = cc e
  PathTo-ends (onward {path = x ∷ xs} c m s t p) e = cc e
