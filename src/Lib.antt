-- ===== src/Lib.antt =====
-- JourneyMap is a deterministic simulation of a journey: a kernel that runs scheduled system events
-- and actions of actors over one JSON state, with a log of events from which a run can be replayed.
--
-- Parts of the program and the files that model them:
-- * Prelude and the modules below it: tests, lists, integers, results, stateful methods and
--   dictionaries, shared by all components. `Exec S A` is a Python method on an object `S`: it returns
--   or raises, and in both cases the object as it was left stays visible.
-- * Json models src/journeymap/core/canonical.py. A dict keeps its insertion order. The canonical text
--   is represented by the value with its keys in order, and SHA-256 is a parameter of the definitions.
-- * Core.Run and Core.Rng model src/journeymap/core/run.py: the manifest, the clock, the status, the
--   sequences, and SplitMix64 on 64-bit words. The loop of `randbelow` has fuel.
-- * Core.Scheduler models src/journeymap/core/scheduler.py. The heap is the list of its items in the
--   order in which `heappop` gives them out.
-- * Core.Events models src/journeymap/core/events.py; subscribers act on a world `W` outside.
-- * Core.Handlers and Core.Handlers.Registry model src/journeymap/core/handlers.py. Handlers are
--   parameters of the kernel: functions that get a generator and give back the one they leave.
-- * Core.Modules models src/journeymap/core/modules.py.
-- * Core.Kernel and the modules below it model src/journeymap/core/kernel.py: State has the fields, the
--   guards, construction, boot, close and `schedule`; Commit has `_commit_plan`; Advance has
--   `advance_to` and `_dispatch_system_event`; Submit has `submit_action`. Each of the other files
--   there proves what its first line names.
-- * Core.Replay models src/journeymap/core/replay.py.
-- * Core.Entities and Core.Actions model src/journeymap/core/entities.py and
--   src/journeymap/core/actions.py.
-- * Modules.Rows has the writes to rows of tables that the domain modules share.
-- * Modules.Inventory models src/journeymap/modules/inventory; its Transfer is about candidates.
-- * Modules.Survival models src/journeymap/modules/survival/models.py, and its Handlers
--   src/journeymap/modules/survival/handlers.py.
-- * Modules.Movement models the files models.py, perception.py and transitions.py of
--   src/journeymap/modules/movement, and its Handlers src/journeymap/modules/movement/handlers.py.
-- * Modules.Trade models src/journeymap/modules/trade/models.py, and its Handlers
--   src/journeymap/modules/trade/handlers.py. A purchase uses the inventory and the positions.
-- * Modules.Knowledge models src/journeymap/modules/knowledge/records.py, and its Projection
--   src/journeymap/modules/knowledge/projection.py. The loop along a chain of supersessions has fuel.
-- * Modules.Social models src/journeymap/modules/social/contracts.py, and its Handlers, Informed and
--   Perception the files handlers.py, knowledge.py and perception.py beside it.
-- * Core.Observations and Core.Controller model src/journeymap/core/observations.py and
--   src/journeymap/core/controller.py.
-- * Application models src/journeymap/application: Session and its Observe, Execute, Submit and Port
--   session.py, Claims social.py, and Reasons, Contracts, Observations, Perception and Turns the files
--   of these names. A session owns a kernel, the history of its observations and the identities of the
--   requests that it has taken.
-- * Modules.Perceptions models the perception.py files of inventory, survival and trade under
--   src/journeymap/modules.
-- * Adapters models src/journeymap/adapters/memory.py, and its EventMemory event_memory.py beside it:
--   the archive that begins and closes the decisions of one actor.
-- * Scenarios.Bridge models src/journeymap/scenarios/alderwick/bridge.py, and Scenarios.Acquired
--   knowledge.py beside it and the perception of resources.py.
--
-- The kernel calls the handlers through the registries, takes due events from the scheduler, writes
-- its state only in a commit, and publishes to the bus only after a commit. The clock, the generator
-- and the sequences are those of its run.
--
-- The loop of `advance_to` has as much fuel as the queue has items, and each round takes one item off;
-- handlers cannot schedule, since the kernel refuses it while a transition is active.
--
-- Not modelled: the type checks of Python arguments, which the types of the model replace; the text of
-- exceptions; the JSON views of event traces; input and output in the other files of
-- src/journeymap/adapters, in src/journeymap/experiments and src/journeymap/examples; the fixtures of
-- src/journeymap/scenarios and the wiring in src/journeymap/bootstrap.py.
-- The research view of src/journeymap/application/research.py has property reads alone.
pub mod Prelude
pub mod Json
pub mod Core
pub mod Tests
pub mod Modules
pub mod Application
pub mod Adapters
pub mod Scenarios
