-- ===== src/ReportTypes/Snapshot/Terminals.antt =====
-- The paths to the terminals of a flow.
use roya_api.Prelude.{
  String, List, [], ◌∷◌, Memᴰ, mem-filter, ◌==◌, ==_iff, ◌≡◌, refl, sym, subst, ap, ◌∙◌, inl, inr,
  option_eq, some,
}
use mathlib.Core.List.Memᴰ
use roya_api.Enums.{NodeCategory, category_eq}
use roya_api.FlowGraph.{FlowNodePlain, FlowConnectionPlain}
use roya_api.FlowGraph.Reached.Correct.{Reach}
use roya_api.ReportTypes.Snapshot.{
  SnapshotTerminalPath, terminal_path, push_path, path_to, terminal_paths, terminals,
  compute_terminal_paths, node_category,
}
use roya_api.ReportTypes.Snapshot.Targets.{known}
use roya_api.ReportTypes.Snapshot.Paths.{PathTo, PathTo-ends, entries, Found, path_to-Found}

module _ (ns : List FlowNodePlain) (cs : List FlowConnectionPlain) where
  -- A path to one of `terms`, from an entry of the flow.
  abbrev pub LeadsToOne : List FlowNodePlain → SnapshotTerminalPath → Type 0
  LeadsToOne terms p =
      (t : FlowNodePlain) × Memᴰ t terms
      × (p.terminal_node_id ≡ t.node_id)
      × PathTo (known ns cs) (entries ns cs) t.node_id p.node_ids

  later_one :
      (t : FlowNodePlain) (ts : List FlowNodePlain) (p : SnapshotTerminalPath)
      → LeadsToOne ts p
      → LeadsToOne (t ∷ ts) p
  later_one t ts p (u, m, e, path) = (u, Memᴰ.tail m, e, path)

  push_path-LeadsToOne :
      (t : FlowNodePlain) (ts : List FlowNodePlain) (path : List String)
      (rest : List SnapshotTerminalPath) (p : SnapshotTerminalPath)
      → Found ns cs t.node_id path
      → (Memᴰ p rest → LeadsToOne ts p)
      → Memᴰ p (push_path t path rest)
      → LeadsToOne (t ∷ ts) p
  push_path-LeadsToOne t ts [] rest p found later m = later_one t ts p (later m)
  push_path-LeadsToOne t ts (i ∷ is) rest p (inr (e, none_there)) later m = absurd (cc e)
  push_path-LeadsToOne t ts (i ∷ is) rest p (inl leads) later m = elim (Memᴰ.cases_cons m) [
    | inl same ↦ (
      t,
      Memᴰ.head refl,
      ap (λ x. x.terminal_node_id) same,
      subst (PathTo (known ns cs) (entries ns cs) t.node_id) (sym (ap (λ x. x.node_ids) same))
          leads,
    )
    | inr behind ↦ later_one t ts p (later behind)
  ]

  mem-LeadsToOne :
      (terms : List FlowNodePlain) (p : SnapshotTerminalPath)
      → Memᴰ p (terminal_paths ns cs terms)
      → LeadsToOne terms p
  unfolding terminal_paths
  mem-LeadsToOne [] p m = absurd (Memᴰ.not-nil m)
  mem-LeadsToOne (t ∷ ts) p m =
      push_path-LeadsToOne t ts (path_to ns cs t.node_id) (terminal_paths ns cs ts) p
        (path_to-Found ns cs t.node_id) (mem-LeadsToOne ts p) m

  pushed :
      (t : FlowNodePlain) (path : List String) (rest : List SnapshotTerminalPath)
      → Found ns cs t.node_id path
      → Reach (known ns cs) (entries ns cs) t.node_id
      → (p : SnapshotTerminalPath) × Memᴰ p (push_path t path rest)
        × (p.terminal_node_id ≡ t.node_id)
  pushed t [] rest (inl leads) h = absurd (PathTo-ends ns cs leads refl)
  pushed t [] rest (inr (e, unreached)) h = absurd (unreached h)
  pushed t (i ∷ is) rest found h = (terminal_path t (i ∷ is), Memᴰ.head refl, refl)

  mem-push_path :
      (t : FlowNodePlain) (path : List String) (rest : List SnapshotTerminalPath)
      (p : SnapshotTerminalPath)
      → Memᴰ p rest
      → Memᴰ p (push_path t path rest)
  mem-push_path t [] rest p m = m
  mem-push_path t (i ∷ is) rest p m = Memᴰ.tail m

  reached-mem :
      (terms : List FlowNodePlain) (t : FlowNodePlain)
      → Memᴰ t terms
      → Reach (known ns cs) (entries ns cs) t.node_id
      → (p : SnapshotTerminalPath) × Memᴰ p (terminal_paths ns cs terms)
        × (p.terminal_node_id ≡ t.node_id)
  unfolding terminal_paths
  reached-mem [] t m h = absurd (Memᴰ.not-nil m)
  reached-mem (u ∷ us) t m h = elim (Memᴰ.cases_cons m) [
    | inl same ↦
        let (p, n, e) =
          pushed u (path_to ns cs u.node_id) (terminal_paths ns cs us)
            (path_to-Found ns cs u.node_id)
            (subst (λ x. Reach (known ns cs) (entries ns cs) x.node_id) same h) in
        (p, n, e ∙ sym (ap (λ x. x.node_id) same))
    | inr behind ↦
        let (p, n, e) = reached-mem us t behind h in
        (p, mem-push_path u (path_to ns cs u.node_id) (terminal_paths ns cs us) p n, e)
  ]

  -- The published paths: each is to a terminal of the flow and leads to it along connections from an
  -- entry, a node that no connection enters or an input; and each terminal that the connections from
  -- nodes of the flow lead to from the entries has one.
  pub compute_terminal_paths-LeadsToOne :
      ((p : SnapshotTerminalPath)
        → Memᴰ p (compute_terminal_paths ns cs)
        → (t : FlowNodePlain) × Memᴰ t ns
          × (node_category t ≡ some NodeCategory.terminal)
          × (p.terminal_node_id ≡ t.node_id)
          × PathTo (known ns cs) (entries ns cs) t.node_id p.node_ids)
      × ((t : FlowNodePlain)
          → Memᴰ t ns
          → node_category t ≡ some NodeCategory.terminal
          → Reach (known ns cs) (entries ns cs) t.node_id
          → (p : SnapshotTerminalPath) × Memᴰ p (compute_terminal_paths ns cs)
            × (p.terminal_node_id ≡ t.node_id))
  unfolding compute_terminal_paths
  compute_terminal_paths-LeadsToOne = (
    λ p m.
        let (t, n, e, path) = mem-LeadsToOne (terminals ns cs) p m in
        let (there, terminal) =
          (mem-filter (λ n. node_category n == some NodeCategory.terminal) t ns).0 n in
        (t, there, (==_iff (node_category t) (some NodeCategory.terminal)).0 terminal, e, path),
    λ t m terminal h.
        reached-mem (terminals ns cs) t
          ((mem-filter (λ n. node_category n == some NodeCategory.terminal) t ns).1
            (m, (==_iff (node_category t) (some NodeCategory.terminal)).1 terminal))
          h,
  )
