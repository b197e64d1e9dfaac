-- ===== src/Execution/Executors/Ports.antt =====
-- The ports that a source node leaves.
use roya_api.Prelude.{
  String, false, some, none, Option, [], ◌∷◌, if◌then◌else◌, or_option, ◌==◌, ==_iff, string_eq,
  includes, ◌≡◌, refl, ap, sym, ◌∙◌, inl, inr, arith, Bool-cases,
}
use roya_api.Prelude.Dict.{get, put, keys, get-put, get-put_other}
use roya_api.Prelude.Distinct.{Distinct}
use roya_api.Value.{Record, of_record}
use roya_api.Execution.Executors.{assign_ports, port_outputs}

payload-assign_ports :
    (bucket out : Record) → get "payload" (assign_ports bucket out) ≡ get "payload" out
unfolding assign_ports
payload-assign_ports [] out = refl
payload-assign_ports ((j, v) ∷ bucket) out = elim (Bool-cases (j == "payload")) [
  | inl payload ↦ rw payload (payload-assign_ports bucket out)
  | inr other ↦
      rw other (payload-assign_ports bucket (put j v out) ∙ get-put_other j "payload" v out other)
]

kept-assign_ports :
    (k : String) (bucket out : Record)
    → includes (keys bucket) k ≡ false
    → get k (assign_ports bucket out) ≡ get k out
unfolding assign_ports
kept-assign_ports k [] out new = refl
kept-assign_ports k ((j, v) ∷ bucket) out new = elim (Bool-cases (j == "payload")) [
  | inl payload ↦ rw payload (kept-assign_ports k bucket out (ground (arith, new)))
  | inr other ↦ rw other (
      kept-assign_ports k bucket (put j v out) (ground (arith, new))
      ∙ get-put_other j k v out (ground (arith, new)))
]

field-assign_ports :
    (k : String) (bucket out : Record)
    → Distinct (keys bucket)
    → (k == "payload") ≡ false
    → get k (assign_ports bucket out) ≡ or_option (get k bucket) (get k out)
unfolding assign_ports
field-assign_ports k [] out d h = refl
field-assign_ports k ((j, v) ∷ bucket) out (once, d) h = elim (Bool-cases (j == k)) [
  | inl same ↦
      let e = (==_iff j k).0 same in
      let apart : (j == "payload") ≡ false = ap (λ x. x == "payload") e ∙ h in
      let new : includes (keys bucket) k ≡ false = ap (includes (keys bucket)) (sym e) ∙ once in
      rw (apart, same)
        (kept-assign_ports k bucket (put j v out) new
          ∙ get-put j k v out
          ∙ ap (λ b. if b then some v else get k out) same)
  | inr other ↦ elim (Bool-cases (j == "payload")) [
    | inl payload ↦ rw (payload, other) (field-assign_ports k bucket out d h)
    | inr field ↦
        rw (field, other)
          (field-assign_ports k bucket (put j v out) d h
            ∙ ap (or_option (get k bucket)) (get-put_other j k v out other))
  ]
]

-- A source node leaves the whole bucket of its connector at `payload`, also where the bucket has a
-- field of that name, and each other field of the bucket at the port of its name; there are no
-- other ports. The bucket has no field twice, as an object has none.
pub port_outputs-get :
    (bucket : Record) (k : String)
    → Distinct (keys bucket)
    → get k (port_outputs bucket)
      ≡ (if k == "payload" then some (of_record bucket) else get k bucket)
unfolding port_outputs
port_outputs-get bucket k d = elim (Bool-cases (k == "payload")) [
  | inl same ↦
      rw (same, (==_iff k "payload").0 same)
        (payload-assign_ports bucket (("payload", of_record bucket) ∷ []))
  | inr other ↦ rw other (
      field-assign_ports k bucket (("payload", of_record bucket) ∷ []) d other
      ∙ or_none (get k bucket) (get k (("payload", of_record bucket) ∷ []))
          (ground (arith, ==_iff "payload" k, ==_iff k "payload", other)))
]
  where
    or_none : {A : Type 0} (o p : Option A) → p ≡ none → or_option o p ≡ o
    or_none none p e = e
    or_none (some a) p e = refl
