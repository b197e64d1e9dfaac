-- ===== src/Execution/PortMerge/Ports.antt =====
-- What each port receives, and what a mapper node is given.
use roya_api.Prelude.{
  String, not, ◌&&◌, Option, none, some, List, [], ◌∷◌, ◌++◌, if◌then◌else◌, ◌==◌, string_eq,
  ==_iff, length, or_else, filter, arith, ◌≡◌, refl, ◌≤◌, append_assoc, append-nil, Bool-cases, inl,
  inr, ◌∙◌, sym, ap, is_some, Option-cases,
}
use roya_api.Prelude.Distinct.{Distinct}
use roya_api.Prelude.Dict.{get, put, keys, get-put, Distinct-put, includes-keys}
use roya_api.Prelude.Result.{ok, threw}
use roya_api.Value.{Value, Record, is_undefined}
use roya_api.Execution.{SnapshotConnection, Runtime}
use roya_api.Execution.PortMerge.{
  ByPort, keyed_ports, merge_mapper_keyed_inputs, brought, collect_by_port,
  collect_incoming_by_port, collect_merger_inbound_array,
}

abbrev pub first : List Value → Option Value
first [] = none
first (v ∷ vs) = some v

-- The values that the connections into port `p` bring, in the connections' order.
abbrev pub arriving : String → List SnapshotConnection → Runtime → List Value
arriving p cs runtime =
    collect_merger_inbound_array (filter (λ c. c.target.port_key == p) cs) runtime

-- What one connection adds at port `p`.
abbrev adds : String → SnapshotConnection → Runtime → List Value
adds p c runtime =
    if c.target.port_key == p && not (is_undefined (brought c runtime))
    then brought c runtime ∷ []
    else []

arriving-cons :
    (p : String) (c : SnapshotConnection) (cs : List SnapshotConnection) (runtime : Runtime)
    → arriving p (c ∷ cs) runtime ≡ adds p c runtime ++ arriving p cs runtime
unfolding collect_merger_inbound_array
arriving-cons p c cs runtime = elim (Bool-cases (c.target.port_key == p)) [
  | inl e ↦ elim (Bool-cases (is_undefined (brought c runtime))) [
    | inl u ↦ rw (e, u) refl
    | inr u ↦ rw (e, u) refl
  ]
  | inr e ↦ rw e refl
]

arriving-nil : (p : String) (runtime : Runtime) → arriving p [] runtime ≡ []
unfolding collect_merger_inbound_array
arriving-nil p runtime = refl

get-adds :
    (p : String) (c : SnapshotConnection) (runtime : Runtime) (m : ByPort)
    → or_else
        (get p (
          if is_undefined (brought c runtime)
          then m
          else put c.target.port_key
              (or_else (get c.target.port_key m) [] ++ brought c runtime ∷ [])
              m))
        []
      ≡ or_else (get p m) [] ++ adds p c runtime
get-adds p c runtime m = elim (Bool-cases (is_undefined (brought c runtime))) [
  | inl u ↦ rw u (ground (arith, append-nil (or_else (get p m) [])))
  | inr u ↦ rw u (
      rw
        (get-put c.target.port_key p
          (or_else (get c.target.port_key m) [] ++ brought c runtime ∷ []) m)
        (elim (Bool-cases (c.target.port_key == p)) [
          | inl e ↦ rw (e, (==_iff c.target.port_key p).0 e) refl
          | inr e ↦ rw e (sym (append-nil (or_else (get p m) [])))
        ]))
]

collect_by_port-arriving :
    (p : String) (cs : List SnapshotConnection) (runtime : Runtime) (m : ByPort)
    → or_else (get p (collect_by_port cs runtime m)) []
      ≡ or_else (get p m) [] ++ arriving p cs runtime
unfolding collect_by_port
collect_by_port-arriving p [] runtime m =
    ground (arith, append-nil (or_else (get p m) []), arriving-nil p runtime)
collect_by_port-arriving p (c ∷ cs) runtime m =
    collect_by_port-arriving p cs runtime (
      if is_undefined (brought c runtime)
      then m
      else put c.target.port_key (or_else (get c.target.port_key m) [] ++ brought c runtime ∷ []) m)
    ∙ ap (λ xs. xs ++ arriving p cs runtime) (get-adds p c runtime m)
    ∙ append_assoc (or_else (get p m) []) (adds p c runtime) (arriving p cs runtime)
    ∙ ap (λ xs. or_else (get p m) [] ++ xs) (sym (arriving-cons p c cs runtime))

Distinct-collect_by_port :
    (cs : List SnapshotConnection) (runtime : Runtime) (m : ByPort)
    → Distinct (keys m)
    → Distinct (keys (collect_by_port cs runtime m))
unfolding collect_by_port
Distinct-collect_by_port [] runtime m h = h
Distinct-collect_by_port (c ∷ cs) runtime m h =
    elim (Bool-cases (is_undefined (brought c runtime))) [
      | inl e ↦ rw e (Distinct-collect_by_port cs runtime m h)
      | inr e ↦ rw e (
          Distinct-collect_by_port cs runtime (put c.target.port_key _ m)
            (Distinct-put c.target.port_key _ m h))
    ]

keyed_ports-ok :
    (ps : ByPort) (out r : Record) (p : String)
    → Distinct (keys ps)
    → keyed_ports ps out ≡ ok r
    → (get p r ≡ (
        if is_some (first (or_else (get p ps) []))
        then first (or_else (get p ps) [])
        else get p out))
      × (length (or_else (get p ps) []) ≤ 1)
unfolding keyed_ports
keyed_ports-ok [] out r p d h = ground arith
keyed_ports-ok ((port, []) ∷ ps) out r p (new, d) h =
    ground (arith, keyed_ports-ok ps out r p d h, ==_iff port p, includes-keys p ps)
keyed_ports-ok ((port, v ∷ []) ∷ ps) out r p (new, d) h = ground (
  arith,
  keyed_ports-ok ps (put port v out) r p d h,
  ==_iff port p,
  get-put port p v out,
  includes-keys p ps,
  Option-cases (get p ps),
)
keyed_ports-ok ((port, v ∷ w ∷ vs) ∷ ps) out r p (new, d) h = cc

keyed_ports-threw :
    (ps : ByPort) (out : Record) (e : Option String)
    → Distinct (keys ps)
    → keyed_ports ps out ≡ threw e
    → (p : String) × (2 ≤ length (or_else (get p ps) []))
unfolding keyed_ports
keyed_ports-threw [] out e d h = cc
keyed_ports-threw ((port, []) ∷ ps) out e (new, d) h =
    let (p, many) = keyed_ports-threw ps out e d h in
    (p, ground (arith, many, new, ==_iff port p, includes-keys p ps, Option-cases (get p ps)))
keyed_ports-threw ((port, v ∷ []) ∷ ps) out e (new, d) h =
    let (p, many) = keyed_ports-threw ps (put port v out) e d h in
    (p, ground (arith, many, new, ==_iff port p, includes-keys p ps, Option-cases (get p ps)))
keyed_ports-threw ((port, v ∷ w ∷ vs) ∷ ps) out e (new, d) h =
    (port, ground (arith, ==_iff port port))

Distinct-collect_incoming :
    (cs : List SnapshotConnection) (runtime : Runtime)
    → Distinct (keys (collect_incoming_by_port cs runtime))
unfolding collect_incoming_by_port
Distinct-collect_incoming cs runtime = Distinct-collect_by_port cs runtime [] tt

collect_incoming_by_port-arriving :
    (p : String) (cs : List SnapshotConnection) (runtime : Runtime)
    → or_else (get p (collect_incoming_by_port cs runtime)) [] ≡ arriving p cs runtime
unfolding collect_incoming_by_port
collect_incoming_by_port-arriving p cs runtime = collect_by_port-arriving p cs runtime []

-- Of the connections into a mapper node: where `mergeMapperKeyedInputs` returns, it gives each
-- port the one value that arrives there, or leaves the port out if none does, and no port has two;
-- where it throws, some port has two or more.
pub merge_mapper_keyed_inputs-arriving :
    (cs : List SnapshotConnection) (runtime : Runtime)
    → ((r : Record)
        → merge_mapper_keyed_inputs (collect_incoming_by_port cs runtime) ≡ ok r
        → (p : String)
        → (get p r ≡ first (arriving p cs runtime)) × (length (arriving p cs runtime) ≤ 1))
      × ((e : Option String)
          → merge_mapper_keyed_inputs (collect_incoming_by_port cs runtime) ≡ threw e
          → (p : String) × (2 ≤ length (arriving p cs runtime)))
unfolding merge_mapper_keyed_inputs
merge_mapper_keyed_inputs-arriving cs runtime =
    let m : ByPort = collect_incoming_by_port cs runtime in
    (
      λ r h p. ground (
        arith,
        keyed_ports-ok m [] r p (Distinct-collect_incoming cs runtime) h,
        first-none (arriving p cs runtime),
        collect_incoming_by_port-arriving p cs runtime,
      ),
      λ e h.
          let (p, many) = keyed_ports-threw m [] e (Distinct-collect_incoming cs runtime) h in
          (p, rw (sym (collect_incoming_by_port-arriving p cs runtime)) many),
    )
  where
    first-none : (vs : List Value) → (if is_some (first vs) then first vs else none) ≡ first vs
    first-none [] = refl
    first-none (v ∷ vs) = refl
