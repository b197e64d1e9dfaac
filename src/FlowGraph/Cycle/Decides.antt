-- ===== src/FlowGraph/Cycle/Decides.antt =====
-- `hasCycle` against directed cycles.
use roya_api.Prelude.{
  String, ℕ, ◌+◌, ◌≤◌, true, false, none, some, List, [], ◌∷◌, Memᴰ, ◌==◌, ==_iff, string_eq,
  includes, includes_iff, length, is_some, ◌≡◌, ◌≢◌, refl, sym, subst, ◌↔◌, ◌⊎◌, inl, inr,
  Bool-cases, arith,
}
use roya_api.Prelude.Dict.{get, put, get-put}
use roya_api.FlowGraph.{FlowConnectionPlain}
use roya_api.FlowGraph.Cycle.{
  white, gray, black, Colors, Verdict, paint, if_white, dfs, search_from, search, found, has_cycle,
}
use roya_api.FlowGraph.Cycle.Walks.{Cycle, IsSafe-acyclic}
use roya_api.FlowGraph.Cycle.Search.{
  whites, Color-cases, Kept-refl, Inv, Outcome, Outcome-map, Outcome-proceed, dfs_lem,
}
use mathlib.Core.List.Memᴰ

-- The colours before the search.
record IsBlank (ns : List String) (c : Colors) : Type 0 where
  coloured : (w : String) → includes ns w ≡ true → is_some (get w c) ≡ true
  blank : (w : String) → (get w c ≡ none) ⊎ (get w c ≡ some white)
  few : whites c ≤ length ns

whites-put_le : (k : String) (m : Colors) → whites (put k white m) ≤ whites m + 1
whites-put_le k [] = omega arith
whites-put_le k ((j, e) ∷ m) = elim (Bool-cases (j == k)) [
  | inl same ↦ rw same (omega arith)
  | inr other ↦ rw other (omega (arith, whites-put_le k m))
]

paint_keeps :
    (ns : List String) (c : Colors) (w : String)
    → ((get w c ≡ none) ⊎ (get w c ≡ some white))
    → ((get w (paint ns c) ≡ none) ⊎ (get w (paint ns c) ≡ some white))
unfolding paint
paint_keeps [] c w h = h
paint_keeps (n ∷ ns) c w h = paint_keeps ns (put n white c) w (ground (arith, get-put n w white c))

paint_colours :
    (ns : List String) (c : Colors) (w : String)
    → ((is_some (get w c) ≡ true) ⊎ (includes ns w ≡ true))
    → is_some (get w (paint ns c)) ≡ true
unfolding paint
paint_colours [] c w h = ground arith
paint_colours (n ∷ ns) c w h =
    paint_colours ns (put n white c) w (ground (arith, get-put n w white c, ==_iff n w))

paint_few : (ns : List String) (c : Colors) → whites (paint ns c) ≤ whites c + length ns
unfolding paint
paint_few [] c = omega arith
paint_few (n ∷ ns) c = omega (arith, paint_few ns (put n white c), whites-put_le n c)

module _ (node_ids : List String) (connections : List FlowConnectionPlain) where
  abbrev NoGray : Colors → Type 0
  NoGray c = (w : String) → get w c ≡ some gray → ⊥

  abbrev AllBlack : List String → Colors → Type 0
  AllBlack ns c = (w : String) → Memᴰ w ns → get w c ≡ some black

  AllBlack-cons :
      (n : String) (ns : List String) (c : Colors)
      → get n c ≡ some black
      → AllBlack ns c
      → AllBlack (n ∷ ns) c
  AllBlack-cons n ns c h t w m = elim (Memᴰ.cases_cons m) [
    | inl same ↦ subst (λ x. get x c ≡ some black) (sym same) h
    | inr later ↦ t w later
  ]

  search_rest :
      (n : String) (ns : List String) (rest : Colors → Verdict) (c : Colors)
      → get n c ≡ some black
      → Outcome node_ids connections c (AllBlack ns) (rest c)
      → Outcome node_ids connections c (AllBlack (n ∷ ns)) (rest c)
  search_rest n ns rest c done o =
      Outcome-map node_ids connections (AllBlack ns) (AllBlack (n ∷ ns)) (rest c) (Kept-refl c)
        (λ d kept t. AllBlack-cons n ns d (kept.blacks n done) t) o

  search_from_lem :
      (fuel : ℕ) (ns : List String) (c : Colors)
      → ((w : String) → Memᴰ w ns → includes node_ids w ≡ true)
      → Inv node_ids connections c
      → NoGray c
      → whites c ≤ fuel
      → Outcome node_ids connections c (AllBlack ns) (search_from node_ids connections fuel ns c)
  unfolding search_from
  search_from_lem fuel [] c sub inv no_gray enough =
      (Kept-refl c, inv, λ w m. absurd (Memᴰ.not-nil m))
  search_from_lem fuel (n ∷ ns) c sub inv no_gray enough =
      let later = λ (d : Colors). search_from_lem fuel ns d (λ w m. sub w (Memᴰ.tail m)) in
      let rest : Colors → Verdict = search_from node_ids connections fuel ns in
      elim (Color-cases (get n c)) [
        | inl missing ↦ absurd (not_missing missing)
        | inr (inl fresh) ↦
            rw (fresh, if_white)
              (Outcome-proceed node_ids connections (λ d. get n d ≡ some black) (AllBlack (n ∷ ns))
                rest (dfs node_ids connections fuel n c)
                (dfs_lem node_ids connections fuel n c fresh inv (λ w g. absurd (no_gray w g))
                  enough)
                (λ d kept inv' done. search_rest n ns rest d done (
                  later d inv' (λ w g. no_gray w ((kept.grays w).1 g))
                    (omega (arith, kept.fewer)))))
        | inr (inr (inl on_stack)) ↦ absurd (no_gray n on_stack)
        | inr (inr (inr done)) ↦
            rw (done, if_white) (search_rest n ns rest c done (later c inv no_gray enough))
      ]
    where
      not_missing : get n c ≡ none → ⊥
      not_missing missing = ground (arith, inv.coloured n (sub n (Memᴰ.head refl)))

  search_lem :
      Outcome node_ids connections
        (paint node_ids [])
        (AllBlack node_ids)
        (search node_ids connections)
  unfolding search
  search_lem =
      search_from_lem (length node_ids) node_ids c0 (λ w m. (includes_iff node_ids w).1 m)
        (record {
          coloured = λ w known. paint_colours node_ids [] w (inr known);
          finished = λ w done. ground (arith, paint_keeps node_ids [] w (inl refl));
        })
        (λ w g. ground (arith, paint_keeps node_ids [] w (inl refl)))
        (omega (arith, paint_few node_ids []))
    where
      c0 : Colors
      c0 = paint node_ids []

  verdict_iff :
      (c : Colors) (r : Verdict)
      → Outcome node_ids connections c (AllBlack node_ids) r
      → (found node_ids connections r ≡ true) ↔ Cycle node_ids connections
  verdict_iff c none o = absurd o
  verdict_iff c (some (true, d)) o = (λ _. o, λ _. refl)
  verdict_iff c (some (false, d)) (kept, inv, all_black) = (λ h. cc, λ y. absurd (none_cyclic y))
    where
      none_cyclic : Cycle node_ids connections → ⊥
      none_cyclic y =
          IsSafe-acyclic node_ids connections
            (inv.finished y.first
              (all_black y.first ((includes_iff node_ids y.first).0 y.closing.known)))
            y.closing y.around

  -- The fuel of the search, one round for each node id, is enough.
  pub search_ends : search node_ids connections ≢ none
  search_ends h =
      subst (Outcome node_ids connections (paint node_ids []) (AllBlack node_ids)) h search_lem

  -- `hasCycle` is true exactly when the connections between the flow's nodes have a directed cycle.
  pub has_cycle_iff : (has_cycle node_ids connections ≡ true) ↔ Cycle node_ids connections
  unfolding has_cycle
  has_cycle_iff = verdict_iff (paint node_ids []) (search node_ids connections) search_lem
