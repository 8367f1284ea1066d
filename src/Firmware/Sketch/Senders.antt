-- ===== src/Firmware/Sketch/Senders.antt =====
-- The messages that basic.ino counts, as a whole and by sender, behind the wrapper.
use painless_mesh_simulator.Prelude.{
  ℕ, suc, ◌+◌, ◌%◌, ◌<◌, ◌≡◌, refl, ◌∙◌, ap, sym, subst, Bool-cases, inl, inr, String, true, List,
  [], ◌∷◌, if◌then◌else◌, add32, arith,
}
use painless_mesh_simulator.Prelude.Int.{ℤ}
use painless_mesh_simulator.StdMap.{ℕ_key, find_or, same}
use painless_mesh_simulator.StdMap.Laws.{find_or-insert, eq_of_same}
use painless_mesh_simulator.Firmware.{FirmwareBase, MeshAnswers}
use painless_mesh_simulator.Firmware.Sketch.{
  InoFirmwareWrapper, wrapper, setup, loop, on_receive, on_new_connection, on_changed_connections,
  on_node_time_adjusted, create_interface,
}
use painless_mesh_simulator.Firmware.Sketch.Basic.{
  BasicInoFirmware, basic_ino_firmware, create_ino_interface, send_message, ino_setup, ino_loop,
  ino_received_callback, ino_new_connection_callback, ino_changed_connection_callback,
  ino_node_time_adjusted_callback,
}

pub data SketchCall : Type 0 where
  set_up looped : MeshAnswers → SketchCall
  received : ℕ → String → SketchCall
  connected : ℕ → SketchCall
  connections_changed : SketchCall
  time_adjusted : ℤ → SketchCall
  -- the task that sends, with what rand() returns
  sent : ℕ → SketchCall

pub call : SketchCall → InoFirmwareWrapper BasicInoFirmware → InoFirmwareWrapper BasicInoFirmware
call (set_up answers) w = setup create_ino_interface answers w
call (looped answers) w = loop answers w
call (received from message) w = on_receive from message w
call (connected node_id) w = on_new_connection node_id w
call connections_changed w = on_changed_connections w
call (time_adjusted offset) w = on_node_time_adjusted offset w
call (sent random) w = record w { sketch = send_message random w.sketch }

pub call_all :
    List SketchCall → InoFirmwareWrapper BasicInoFirmware → InoFirmwareWrapper BasicInoFirmware
unfolding call
call_all [] w = w
call_all (c ∷ calls) w = call_all calls (call c w)

-- The calls behind the first set-up.
pub after_set_up : List SketchCall → List SketchCall
after_set_up [] = []
after_set_up (set_up answers ∷ calls) = calls
after_set_up (c ∷ calls) = after_set_up calls

-- The messages received, from all nodes and from one.
pub from_all : List SketchCall → ℕ
from_all [] = 0
from_all (received from message ∷ calls) = suc (from_all calls)
from_all (c ∷ calls) = from_all calls

pub from_node : ℕ → List SketchCall → ℕ
from_node node [] = 0
from_node node (received from message ∷ calls) =
    (if same node from then 1 else 0) + from_node node calls
from_node node (c ∷ calls) = from_node node calls

abbrev Fits : BasicInoFirmware → Type 0
Fits s =
    (s.messages_received < 4294967296) × ((node : ℕ) → find_or 0 node s.received_from < 4294967296)

abbrev Counted : List SketchCall → BasicInoFirmware → BasicInoFirmware → Type 0
Counted calls s t =
    (t.messages_received ≡ (s.messages_received + from_all calls) % 4294967296)
    × ((node : ℕ)
        → find_or 0 node t.received_from
          ≡ (find_or 0 node s.received_from + from_node node calls) % 4294967296)

abbrev bound_sketch : BasicInoFirmware → InoFirmwareWrapper BasicInoFirmware
bound_sketch s = record { sketch = s; interface = create_ino_interface; interface_created = true }

-- What one message does to the counters.
one_received :
    (from : ℕ) (message : String) (s : BasicInoFirmware) (node : ℕ)
    → find_or 0 node (ino_received_callback from message s).received_from ≡ (
        if same node from
        then add32 (find_or 0 from s.received_from) 1
        else find_or 0 node s.received_from)
unfolding ino_received_callback
one_received from message s node = find_or-insert 0 node from _ s.received_from

one_more : (a b : ℕ) → ((a + 1) % 4294967296 + b) % 4294967296 ≡ (a + suc b) % 4294967296
one_more a b = omega arith

total_step :
    (from : ℕ) (message : String) (s : BasicInoFirmware) (n : ℕ)
    → ((ino_received_callback from message s).messages_received + n) % 4294967296
      ≡ (s.messages_received + suc n) % 4294967296
unfolding ino_received_callback
total_step from message s n = one_more s.messages_received n

node_step :
    (from : ℕ) (message : String) (s : BasicInoFirmware) (node n : ℕ)
    → (find_or 0 node (ino_received_callback from message s).received_from + n) % 4294967296
      ≡ (find_or 0 node s.received_from + ((if same node from then 1 else 0) + n)) % 4294967296
node_step from message s node n = elim (Bool-cases (same node from)) [
  | inl e ↦
      let equal = ap (λ i. find_or 0 i s.received_from) (eq_of_same node from e) in
      rw (one_received from message s node, e, equal)
        (one_more (find_or 0 from s.received_from) n ∙ ap (λ i. i % 4294967296) (omega arith))
  | inr e ↦ rw (one_received from message s node, e) (ap (λ i. i % 4294967296) (omega arith))
]

counted_step :
    (from : ℕ) (message : String) (s t : BasicInoFirmware) (calls : List SketchCall)
    → Counted calls (ino_received_callback from message s) t
    → Counted (received from message ∷ calls) s t
unfolding from_all from_node
counted_step from message s t calls c = (
  c.0 ∙ total_step from message s (from_all calls),
  λ node. c.1 node ∙ node_step from message s node (from_node node calls),
)

fits_total :
    (from : ℕ) (message : String) (s : BasicInoFirmware)
    → (ino_received_callback from message s).messages_received < 4294967296
unfolding ino_received_callback
fits_total from message s = omega arith

Fits-step :
    (from : ℕ) (message : String) (s : BasicInoFirmware)
    → Fits s
    → Fits (ino_received_callback from message s)
Fits-step from message s h = (
  fits_total from message s,
  λ node.
      let one = one_received from message s node in
      let before = h.1 node in ground (arith, one, before),
)

setup_fields :
    (answers : MeshAnswers) (s : BasicInoFirmware)
    → ((ino_setup answers s).messages_received ≡ s.messages_received)
      × ((ino_setup answers s).received_from ≡ s.received_from)
unfolding ino_setup
setup_fields answers s = (ground arith, ground arith)

send_fields :
    (random : ℕ) (s : BasicInoFirmware)
    → ((send_message random s).messages_received ≡ s.messages_received)
      × ((send_message random s).received_from ≡ s.received_from)
unfolding send_message
send_fields random s = (ground arith, ground arith)

-- A change that keeps both counters.
same-Fits :
    (s t : BasicInoFirmware)
    → (t.messages_received ≡ s.messages_received) × (t.received_from ≡ s.received_from)
    → Fits s
    → Fits t
same-Fits s t (e, f) h =
    (omega (arith, e, h.0), λ node. subst (λ m. find_or 0 node m < 4294967296) (sym f) (h.1 node))

abbrev final : List SketchCall → BasicInoFirmware → BasicInoFirmware
final calls s = (call_all calls (bound_sketch s)).sketch

same-Counted :
    (calls : List SketchCall) (s t u : BasicInoFirmware)
    → (t.messages_received ≡ s.messages_received) × (t.received_from ≡ s.received_from)
    → (Fits t → Counted calls t u)
    → Fits s
    → Counted calls s u
same-Counted calls s t u (e, f) rest h =
    let c = rest (same-Fits s t (e, f) h) in
    (
      omega (arith, e, c.0),
      λ node. c.1 node ∙ ap (λ m. (find_or 0 node m + from_node node calls) % 4294967296) f,
    )

running :
    (calls : List SketchCall) (s : BasicInoFirmware) → Fits s → Counted calls s (final calls s)
unfolding call_all call from_all from_node setup loop on_receive on_new_connection
    on_changed_connections on_node_time_adjusted create_interface ino_loop
    ino_new_connection_callback ino_changed_connection_callback ino_node_time_adjusted_callback
running [] s h = (omega (arith, h.0), λ node. let before = h.1 node in omega (arith, before))
running (received from message ∷ calls) s h =
    let t = ino_received_callback from message s in
    counted_step from message s (final calls t) calls (running calls t (Fits-step from message s h))
running (set_up answers ∷ calls) s h =
    let t = ino_setup answers s in
    same-Counted calls s t (final calls t) (setup_fields answers s) (running calls t) h
running (sent random ∷ calls) s h =
    let t = send_message random s in
    same-Counted calls s t (final calls t) (send_fields random s) (running calls t) h
running (looped answers ∷ calls) s h =
    let t = ino_loop answers s in
    same-Counted calls s t (final calls t) (refl, refl) (running calls t) h
running (connected node_id ∷ calls) s h =
    let t = ino_new_connection_callback node_id s in
    same-Counted calls s t (final calls t) (refl, refl) (running calls t) h
running (connections_changed ∷ calls) s h =
    let t = ino_changed_connection_callback s in
    same-Counted calls s t (final calls t) (refl, refl) (running calls t) h
running (time_adjusted offset ∷ calls) s h =
    let t = ino_node_time_adjusted_callback offset s in
    same-Counted calls s t (final calls t) (refl, refl) (running calls t) h

-- Before the first set-up no message is counted.
waiting :
    (calls : List SketchCall) (s : BasicInoFirmware)
    → Fits s
    → Counted (after_set_up calls) s (call_all calls (wrapper s)).sketch
unfolding call_all call from_all from_node setup loop on_receive on_new_connection
    on_changed_connections on_node_time_adjusted create_interface wrapper after_set_up
waiting [] s h = (omega (arith, h.0), λ node. let before = h.1 node in omega (arith, before))
waiting (received from message ∷ calls) s h = waiting calls s h
waiting (set_up answers ∷ calls) s h =
    let t = ino_setup answers s in
    same-Counted calls s t (final calls t) (setup_fields answers s) (running calls t) h
waiting (sent random ∷ calls) s h =
    let t = send_message random s in
    same-Counted (after_set_up calls) s t (call_all calls (wrapper t)).sketch (send_fields random s)
      (waiting calls t) h
waiting (looped answers ∷ calls) s h = waiting calls s h
waiting (connected node_id ∷ calls) s h = waiting calls s h
waiting (connections_changed ∷ calls) s h = waiting calls s h
waiting (time_adjusted offset ∷ calls) s h = waiting calls s h

-- However the calls on the sketch basic.ino follow one another, it counts the messages that are received
-- behind the first set-up, and none before: their number, and for each node the number of those that
-- came from it, in 32-bit counters.
pub basic_ino_counts :
    (base : FirmwareBase) (calls : List SketchCall)
    → let s = (call_all calls (wrapper (record basic_ino_firmware { base = base }))).sketch in
      (s.messages_received ≡ from_all (after_set_up calls) % 4294967296)
      × ((node : ℕ)
          → find_or 0 node s.received_from ≡ from_node node (after_set_up calls) % 4294967296)
unfolding basic_ino_firmware find_or
basic_ino_counts base calls =
    let c =
      waiting calls (record basic_ino_firmware { base = base })
        (omega arith, λ node. omega arith) in
    (omega (arith, c.0), λ node. let counted = c.1 node in omega (arith, counted))
