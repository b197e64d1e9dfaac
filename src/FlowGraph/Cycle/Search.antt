-- ===== src/FlowGraph/Cycle/Search.antt =====
-- The invariant of `dfs`, its measure, and the walks that it follows.
use roya_api.Prelude.{
  String, ℕ, zero, suc, ◌+◌, ◌≤◌, true, false, Option, none, some, List, [], ◌∷◌, Memᴰ, ◌==◌,
  ==_iff, string_eq, includes, is_some, ◌≡◌, refl, sym, subst, ◌↔◌, ◌⊎◌, inl, inr, Bool-cases,
  arith,
}
use roya_api.Prelude.Dict.{get, put, get-put, get-put_self}
use roya_api.FlowGraph.{FlowConnectionPlain}
use roya_api.FlowGraph.Cycle.{
  Color, white, gray, black, Colors, Verdict, proceed, follow, finish, scan, dfs,
}
use roya_api.FlowGraph.Cycle.Walks.{Edge, Walk, here, Cycle, IsSafe, safe, Walk-append}
use mathlib.Core.List.Memᴰ

abbrev weight : Color → ℕ
weight white = 1
weight gray = 0
weight black = 0

-- The nodes that no call has entered.
abbrev pub whites : Colors → ℕ
whites [] = 0
whites ((k, c) ∷ m) = weight c + whites m

pub whites-put :
    (k : String) (c d : Color) (m : Colors)
    → get k m ≡ some c
    → whites (put k d m) + weight c ≡ whites m + weight d
whites-put k c d [] h = cc
whites-put k c d ((j, e) ∷ m) h = elim (Bool-cases (j == k)) [
  | inl same ↦ ground arith
  | inr other ↦ ground (arith, whites-put k c d m)
]

pub Color-cases :
    (o : Option Color) → (o ≡ none) ⊎ (o ≡ some white) ⊎ (o ≡ some gray) ⊎ (o ≡ some black)
Color-cases none = ground arith
Color-cases (some white) = ground arith
Color-cases (some gray) = ground arith
Color-cases (some black) = ground arith

-- What a call that found no cycle leaves as it was.
pub record Kept (c d : Colors) : Type 0 where
  pub blacks : (w : String) → get w c ≡ some black → get w d ≡ some black
  pub grays : (w : String) → (get w c ≡ some gray) ↔ (get w d ≡ some gray)
  pub coloured : (w : String) → is_some (get w c) ≡ true → is_some (get w d) ≡ true
  pub fewer : whites d ≤ whites c

pub Kept-refl : (c : Colors) → Kept c c
Kept-refl c = record {
  blacks = λ w h. h;
  grays = λ w. (λ h. h, λ h. h);
  coloured = λ w h. h;
  fewer = omega arith;
}

pub Kept-trans : {c d e : Colors} → Kept c d → Kept d e → Kept c e
Kept-trans p q = record {
  blacks = λ w h. q.blacks w (p.blacks w h);
  grays = λ w. (λ h. (q.grays w).0 ((p.grays w).0 h), λ h. (p.grays w).1 ((q.grays w).1 h));
  coloured = λ w h. q.coloured w (p.coloured w h);
  fewer = omega (arith, p.fewer, q.fewer);
}

module _ (node_ids : List String) (connections : List FlowConnectionPlain) where
  pub record Inv (c : Colors) : Type 0 where
    pub coloured : (w : String) → includes node_ids w ≡ true → is_some (get w c) ≡ true
    pub finished : (w : String) → get w c ≡ some black → IsSafe node_ids connections w

  -- Every node on the recursion stack leads to `u`.
  abbrev pub Stack : String → Colors → Type 0
  Stack u c = (w : String) → get w c ≡ some gray → Walk node_ids connections u w

  abbrev pub Outcome : Colors → (Colors → Type 0) → Verdict → Type 0
  Outcome c P none = ⊥
  Outcome c P (some (true, d)) = Cycle node_ids connections
  Outcome c P (some (false, d)) = Kept c d × Inv d × P d

  pub Outcome-map :
      {c d : Colors} (P Q : Colors → Type 0) (r : Verdict)
      → Kept c d
      → ((e : Colors) → Kept d e → P e → Q e)
      → Outcome d P r
      → Outcome c Q r
  Outcome-map P Q none k f o = o
  Outcome-map P Q (some (true, e)) k f o = o
  Outcome-map P Q (some (false, e)) k f (kept, inv, p) = (Kept-trans k kept, inv, f e kept p)

  pub Outcome-proceed :
      {c : Colors} (P Q : Colors → Type 0) (rest : Colors → Verdict) (r : Verdict)
      → Outcome c P r
      → ((d : Colors) → Kept c d → Inv d → P d → Outcome d Q (rest d))
      → Outcome c Q (proceed rest r)
  Outcome-proceed P Q rest none o f = o
  Outcome-proceed P Q rest (some (true, d)) o f = o
  Outcome-proceed P Q rest (some (false, d)) (kept, inv, p) f =
      Outcome-map Q Q (rest d) kept (λ e _ q. q) (f d kept inv p)

  -- The targets of the edges from `u` among `cs`.
  abbrev pub TargetsBlack : String → List FlowConnectionPlain → Colors → Type 0
  TargetsBlack u cs d =
      (c : FlowConnectionPlain)
      → Memᴰ c cs
      → c.source.node_id ≡ u
      → includes node_ids c.target.node_id ≡ true
      → get c.target.node_id d ≡ some black

  -- What a call of `dfs` promises for nodes that `fuel` is enough for.
  abbrev pub Promise : ℕ → (String → Colors → Verdict) → Type 0
  Promise fuel call =
      (v : String) (c : Colors)
      → get v c ≡ some white
      → Inv c
      → Stack v c
      → whites c ≤ fuel
      → Outcome c (λ d. get v d ≡ some black) (call v c)

  module _ (fuel : ℕ) (call : String → Colors → Verdict) (promise : Promise fuel call)
      (u : String) where
    TargetsBlack-cons :
        (e : FlowConnectionPlain) (cs : List FlowConnectionPlain) (d : Colors)
        → (e.source.node_id ≡ u
            → includes node_ids e.target.node_id ≡ true
            → get e.target.node_id d ≡ some black)
        → TargetsBlack u cs d
        → TargetsBlack u (e ∷ cs) d
    TargetsBlack-cons e cs d head tail x m leaves known = elim (Memᴰ.cases_cons m) [
      | inl same ↦ subst BlackTarget (sym same) head leaves known
      | inr later ↦ tail x later leaves known
    ]
      where
        BlackTarget : FlowConnectionPlain → Type 0
        BlackTarget y =
            y.source.node_id ≡ u
            → includes node_ids y.target.node_id ≡ true
            → get y.target.node_id d ≡ some black

    module _ (e : FlowConnectionPlain) (cs : List FlowConnectionPlain)
        (rest : Colors → Verdict) where
      -- The rest of the loop, once the target of `e` is black or `e` is no edge from `u`.
      scan_rest :
          (c : Colors)
          → (e.source.node_id ≡ u
              → includes node_ids e.target.node_id ≡ true
              → get e.target.node_id c ≡ some black)
          → Outcome c (TargetsBlack u cs) (rest c)
          → Outcome c (TargetsBlack u (e ∷ cs)) (rest c)
      scan_rest c done o =
          Outcome-map (TargetsBlack u cs) (TargetsBlack u (e ∷ cs)) (rest c) (Kept-refl c)
            (λ d kept. TargetsBlack-cons e cs d (λ leaves known. kept.blacks _ (done leaves known)))
            o

      -- One round at an edge from `u`.
      scan_target :
          (c : Colors)
          → Edge node_ids connections u e.target.node_id
          → ((d : Colors)
              → Inv d
              → Stack u d
              → whites d ≤ fuel
              → Outcome d (TargetsBlack u cs) (rest d))
          → Inv c
          → Stack u c
          → whites c ≤ fuel
          → Outcome c
              (TargetsBlack u (e ∷ cs))
              (follow call rest (get e.target.node_id c) e.target.node_id c)
      scan_target c edge later inv stack enough = elim (Color-cases (get v c)) [
        | inl missing ↦ absurd (not_missing missing)
        | inr (inl fresh) ↦
            rw (fresh, follow)
              (Outcome-proceed (λ d. get v d ≡ some black) (TargetsBlack u (e ∷ cs)) rest (call v c)
                (promise v c fresh inv (λ w g. Walk-append node_ids connections (stack w g) edge)
                  enough)
                (λ d kept inv' black_now.
                  scan_rest d (λ _ _. black_now)
                    (later d inv' (λ w g. stack w ((kept.grays w).1 g))
                      (omega (arith, kept.fewer)))))
        | inr (inr (inl on_stack)) ↦
            rw (on_stack, follow)
              (record { last = u; first = v; closing = edge; around = stack v on_stack })
        | inr (inr (inr done)) ↦
            rw (done, follow) (scan_rest c (λ _ _. done) (later c inv stack enough))
      ]
        where
          v : String
          v = e.target.node_id

          not_missing : get v c ≡ none → ⊥
          not_missing missing = ground (arith, inv.coloured v edge.known)

    differ : (a b : String) → (a == b) ≡ false → a ≡ b → ⊥
    differ a b h same = ground (arith, ==_iff a b)

    scan_lem :
        (cs : List FlowConnectionPlain) (c : Colors)
        → ((e : FlowConnectionPlain) → Memᴰ e cs → Memᴰ e connections)
        → Inv c
        → Stack u c
        → whites c ≤ fuel
        → Outcome c (TargetsBlack u cs) (scan node_ids connections call u cs c)
    unfolding scan
    scan_lem [] c sub inv stack enough = (Kept-refl c, inv, λ e m _ _. absurd (Memᴰ.not-nil m))
    scan_lem (e ∷ cs) c sub inv stack enough =
        let later = λ (d : Colors). scan_lem cs d (λ x m. sub x (Memᴰ.tail m)) in
        let rest : Colors → Verdict = scan node_ids connections call u cs in
        elim (Bool-cases (e.source.node_id == u)) [
          | inr other ↦ rw other (
              scan_rest e cs rest c (λ leaves _. absurd (differ _ _ other leaves))
                (later c inv stack enough))
          | inl leaves ↦ elim (Bool-cases (includes node_ids e.target.node_id)) [
            | inr unknown ↦
                rw (leaves, unknown)
                  (scan_rest e cs rest c (λ _ known. cc) (later c inv stack enough))
            | inl known ↦
                rw (leaves, known)
                  (scan_target e cs rest c
                    (record {
                      connection = e;
                      listed = sub e (Memᴰ.head refl);
                      leaves = (==_iff _ _).0 leaves;
                      enters = refl;
                      known = known;
                    })
                    later inv stack enough)
          ]
        ]

  -- Entering `u` makes it gray.
  module _ (u : String) (c : Colors) (fresh : get u c ≡ some white) where
    enter-Inv : Inv c → Inv (put u gray c)
    enter-Inv inv = record {
      coloured = λ w known. ground (arith, get-put u w gray c, inv.coloured w known);
      finished = λ w done. inv.finished w (ground (arith, get-put u w gray c));
    }

    enter-Stack : Stack u c → Stack u (put u gray c)
    enter-Stack stack w g = elim (Bool-cases (u == w)) [
      | inl same ↦ subst (Walk node_ids connections u) ((==_iff u w).0 same) here
      | inr other ↦ stack w (ground (arith, get-put u w gray c))
    ]

    leave-Kept : (d : Colors) → Kept (put u gray c) d → Kept c (put u black d)
    leave-Kept d kept = record {
      blacks =
          λ w h. ground (arith, get-put u w black d, get-put u w gray c, kept.blacks w, ==_iff u w);
      grays =
          λ w. ground (arith, get-put u w black d, get-put u w gray c, kept.grays w, ==_iff u w);
      coloured = λ w h. ground (arith, get-put u w black d, get-put u w gray c, kept.coloured w);
      fewer =
          let entered : get u (put u gray c) ≡ some gray = get-put_self u gray c in
          omega (
            arith,
            kept.fewer,
            whites-put u white gray c fresh,
            whites-put u gray black d ((kept.grays u).0 entered),
          );
    }

    leave-Inv : (d : Colors) → Inv d → TargetsBlack u connections d → Inv (put u black d)
    leave-Inv d inv targets = record {
      coloured = λ w known. ground (arith, get-put u w black d, inv.coloured w known);
      finished = λ w done. elim (Bool-cases (u == w)) [
        | inl same ↦ subst (IsSafe node_ids connections) ((==_iff u w).0 same) safe_u
        | inr other ↦ inv.finished w (ground (arith, get-put u w black d))
      ];
    }
      where
        target_black : (v : String) → Edge node_ids connections u v → get v d ≡ some black
        target_black v e =
            subst (λ x. get x d ≡ some black) e.enters
              (targets e.connection e.listed e.leaves
                (subst (λ x. includes node_ids x ≡ true) (sym e.enters) e.known))

        safe_u : IsSafe node_ids connections u
        safe_u = safe λ v e. inv.finished v (target_black v e)

    finish_lem :
        (r : Verdict)
        → Outcome (put u gray c) (TargetsBlack u connections) r
        → Outcome c (λ d. get u d ≡ some black) (finish u r)
    finish_lem none o = o
    finish_lem (some (true, d)) o = o
    finish_lem (some (false, d)) (kept, inv, targets) =
        (leave-Kept d kept, leave-Inv d inv targets, get-put_self u black d)

  -- `dfs` with fuel for every node that is still white.
  pub dfs_lem : (fuel : ℕ) → Promise fuel (dfs node_ids connections fuel)
  unfolding dfs
  dfs_lem zero u c fresh inv stack enough = absurd (omega (arith, whites-put u white gray c fresh))
  dfs_lem (suc fuel) u c fresh inv stack enough = finish_lem u c fresh _ (
      scan_lem fuel _ (dfs_lem fuel) u connections (put u gray c) (λ e m. m)
        (enter-Inv u c fresh inv) (enter-Stack u c fresh stack)
        (omega (arith, whites-put u white gray c fresh)))
