-- ===== src/Execution/PortMerge.antt =====
-- analyses/dynamic-flow-port-merge.util.ts, and the two collections of
-- analyses/dynamic-flow-execution.service.ts that it works on.
pub mod Ports
use roya_api.Prelude.{
  String, ℕ, Bool, true, false, ◌&&◌, Option, none, some, List, [], ◌∷◌, ◌++◌, if◌then◌else◌, ◌==◌,
  string_eq, length, or_else, nat_beq, ltb,
}
use roya_api.Prelude.Dict.{get, put}
use roya_api.Prelude.Text.{template, decimal}
use roya_api.Prelude.Result.{Result, ok, threw}
use roya_api.Value.{Value, Record, at, as_record, assign, is_undefined, of_record, of_list}
use roya_api.Execution.{SnapshotConnection, NodeRuntime, Runtime, is_completed}

-- `Record<string, unknown[]>`
abbrev pub ByPort : Type 0
ByPort = List (String × List Value)

-- The values that are plain objects.
abbrev pub plain_objects : List Value → List Record
plain_objects [] = []
plain_objects (v ∷ vs) = let rest = plain_objects vs in or_object (as_record v) rest
  where
    or_object : Option Record → List Record → List Record
    or_object none rest = rest
    or_object (some r) rest = r ∷ rest

pub assign_all : Record → List Record → Record
unfolding assign
assign_all out [] = out
assign_all out (r ∷ rs) = assign_all (assign out r) rs

abbrev pub merge_single : String → Value → Option Record → Record → Record
merge_single port v (some r) out = assign out r
merge_single port v none out = if is_undefined v then out else put port v out

abbrev pub merge_several : String → List Value → Record → Record
merge_several port values out =
    let plain : List Record = plain_objects values in
    if nat_beq (length plain) (length values) && ltb 0 (length plain)
    then put port (of_record (assign_all [] plain)) out
    else put port (of_list values) out

pub merge_port : String → List Value → Record → Record
merge_port port [] out = merge_several port [] out
merge_port port (v ∷ []) out = merge_single port v (as_record v) out
merge_port port (v ∷ w ∷ vs) out = merge_several port (v ∷ w ∷ vs) out

pub merge_ports : ByPort → Record → Record
merge_ports [] out = out
merge_ports ((port, values) ∷ ps) out = merge_ports ps (merge_port port values out)

unfoldable pub merge_incoming_generic : ByPort → Record
unfolding merge_ports merge_port assign_all
merge_incoming_generic by_port = merge_ports by_port []

abbrev pub too_many : String → ℕ → String
too_many port n = template (
    "Mapper node must have at most one connection per input port; port \""
    ∷ port
    ∷ "\" has "
    ∷ decimal n
    ∷ ". Use a Merger node to combine multiple streams into an array."
    ∷ [])

pub keyed_ports : ByPort → Record → Result Record
keyed_ports [] out = ok out
keyed_ports ((port, []) ∷ ps) out = keyed_ports ps out
keyed_ports ((port, v ∷ []) ∷ ps) out = keyed_ports ps (put port v out)
keyed_ports ((port, v ∷ w ∷ vs) ∷ ps) out = threw (some (too_many port (length (v ∷ w ∷ vs))))

unfoldable pub merge_mapper_keyed_inputs : ByPort → Result Record
unfolding keyed_ports
merge_mapper_keyed_inputs by_port = keyed_ports by_port []

abbrev pub completed_output : Option NodeRuntime → String → Value
completed_output none port = Value.undefined
completed_output (some src) port =
    if is_completed src.status then at port src.outputs else Value.undefined

-- The value that a connection brings; `undefined` brings none.
abbrev pub brought : SnapshotConnection → Runtime → Value
brought c runtime = completed_output (get c.source.node_id runtime) c.source.port_key

pub collect_by_port : List SnapshotConnection → Runtime → ByPort → ByPort
collect_by_port [] runtime by_port = by_port
collect_by_port (c ∷ cs) runtime by_port = collect_by_port cs runtime (
    if is_undefined (brought c runtime)
    then by_port
    else put c.target.port_key
        (or_else (get c.target.port_key by_port) [] ++ brought c runtime ∷ []) by_port)

unfoldable pub collect_incoming_by_port : List SnapshotConnection → Runtime → ByPort
unfolding collect_by_port
collect_incoming_by_port incoming runtime = collect_by_port incoming runtime []

unfoldable pub collect_merger_inbound_array : List SnapshotConnection → Runtime → List Value
collect_merger_inbound_array [] runtime = []
collect_merger_inbound_array (c ∷ cs) runtime =
    let rest = collect_merger_inbound_array cs runtime in
    if is_undefined (brought c runtime) then rest else brought c runtime ∷ rest
