-- ===== src/Lib.antt =====
-- The painlessMesh simulator: a model of the part of it that decides, with what is proved of it.
--
-- The program simulates a mesh of ESP32/ESP8266 nodes. A scenario file configures nodes, a network and
-- events. The node manager creates the nodes, starts and stops them and connects their meshes; each
-- node wraps a mesh object of the painlessMesh library and a firmware. The network simulator decides for
-- each message whether it is lost, throttled or delivered, and when. The event scheduler executes the
-- scenario's events in time, and an event changes the node manager and the network simulator.
--
-- Files, and the code that each one models:
-- - Network and its children: the class NetworkSimulator, src/network/network_simulator.cpp and
--   include/simulator/network_simulator.hpp. Network.State is its state, with its maps under the same
--   names; Connections, Latency, Loss, Bandwidth, Stats and Messages hold the methods of each concern
--   (enqueueMessage is enqueue_message), and their children the proofs.
-- - Firmware and its children: the base class, include/simulator/firmware/firmware_base.hpp, the registry
--   (Factory), the built-in firmwares (SimpleBroadcast, Echo, and LibraryValidation with its Report,
--   src/firmware/library_validation_firmware.cpp), and the wrapper of Arduino sketches with its two
--   sketches (Sketch). Each firmware has the base class's state as its field base.
-- - Node: VirtualNode, src/core/virtual_node.cpp. NodeManager: src/core/node_manager.cpp.
-- - Events: the nine events of src/scenario/events, each as a constructor of Event with its own
--   execute function. World is the pair of objects that an event is executed on.
-- - EventScheduler: src/scenario/event_scheduler.cpp.
-- - Scenario: the structs of include/simulator/config_loader.hpp, and of src/config/config_loader.cpp
--   the validation (Validation), the templates (Templates) and the reader (Reader): loadFromString and
--   the parse functions over an interface of the YAML library.
-- - Cli: src/cli/cli_parser.cpp, from the variables map of Boost.Program_options. Program: src/main.cpp,
--   from the parsed options to the last node that is created (launch), from there to the stop of all
--   nodes (simulate), where the loop runs along the turns to come, and both as one run from the command
--   line to the exit code (Run.main), with the reader of the scenario file before them.
-- - Result has exceptions as values and Step, a call that may throw after a part of its changes; StdMap
--   has std::map and std::set, MinQueue std::priority_queue, Text std::to_string, std::stoul and
--   tolower; Prelude has the names and lemmas that all modules share; Samples runs the models and
--   applies the theorems.
--
-- What stands outside the code is a parameter. Platform has floating point, the Mersenne twister and the
-- distributions of <random>; the theorems that need it assume of these that a uniform integer lies in
-- its range (UniformInRange). Devices has the construction of a mesh and what a node calls of a firmware.
-- Reader.Yaml has the YAML library: look-ups, iterations and conversions, which may throw. The calls of a
-- firmware on the mesh, the scheduler and its tasks are recorded, and what the mesh answers is an
-- argument (MeshAnswers). MinQueue states what the standard promises of a priority queue, and leaves
-- open which of several equal entries comes first; MinQueue.Sorted is one that does so. std::hash and
-- std::rand are arguments, for a whole run in Run.Surroundings.
--
-- Numbers are natural numbers, and a machine word keeps its wrap-around (add32, sub64, mul32). The time
-- is an argument: in milliseconds for the network, in nanoseconds of the steady clock, which does not
-- fall, for the nodes. A method that changes state returns the new state; a pointer from getNode is the
-- entry of the manager's map, which is where the code has it too. The loops over a queue run on fuel, one
-- turn more than the queue has entries, which is enough since each turn but the last takes an entry out.
--
-- Not modelled: the reports of the main program, the texts on the console, callbacks that only print and
-- the descriptions of events, and the painlessMesh, YAML and Boost libraries. A node sees its firmware
-- only through Devices. The model takes it that firmware methods and mesh calls return, do not call back
-- into the node that holds them, that time offsets are not the least 32-bit number, whose absolute value
-- is not defined, and that the texts which reach a firmware have no NUL character.
pub mod Prelude
pub mod Result
pub mod Platform
pub mod Text
pub mod TextMap
pub mod Devices
pub mod StdMap
pub mod MinQueue
pub mod Network
pub mod Firmware
pub mod Node
pub mod NodeManager
pub mod Events
pub mod EventScheduler
pub mod Scenario
pub mod Cli
pub mod Program
pub mod Samples
