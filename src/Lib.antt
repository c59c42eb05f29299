-- ===== src/Lib.antt =====
-- A model of the parts of fault-affinity that decide what runs, where, and in which order, and what
-- may be concluded from it. The program runs a workload again and again, each attempt under a
-- supervisor and, in most phases, pinned to one logical CPU, and localizes a hardware fault to the
-- CPUs on which the workload fails. It is resumed from files after every interruption, so most of
-- its code builds a deterministic schedule, checks stored records against it, and takes the next step.
--
-- The parts and their files. A path in a comment is from the repository's root.
--   Schedule       diagnose-lib/pinned-runner.mjs: `createUint32Rng` and `randomBelow` (Rng), `shuffle`,
--                  `buildCyclicOrders` and the three order builders (Orders). The generator's closure
--                  is its 32-bit state, passed on; `Math.imul`, `^`, `|` and `>>>` are written out on
--                  natural numbers below 2 ^ 32.
--   CpuList        diagnose-lib/pinned-runner.mjs: `expandCpuList`, `compressCpuList`.
--   Text           strings as lists of character codes, with the expressions that the parts match.
--   ExactCpu       diagnose-lib/pinned-protocol.mjs `buildIsolatedPlan` (Plan), which turns the isolated
--                  orders into numbered slots; diagnose-lib/exact-cpu-phase.mjs: the manifest (Phase),
--                  the envelope of an attempt (Envelope), `assessExactCpuPhasePrefix` and
--                  `runNextExactCpuPhaseAttempt` (Resume).
--   Baseline       diagnose-lib/baseline-phase.mjs: the manifest, and the waves of children, which
--                  settle in any order (Waves).
--   Attempt        diagnose-lib/attempt-supervisor.mjs: `validateLaunch` (Launch), and each handler of
--                  the supervisor as a function on its state, the module's variables together with
--                  the channel, the pending exits and a log of effects (Supervisor). `step` is the
--                  dispatch of an event; Traces says when Node delivers which event. The two
--                  classifications of a child's outcome in diagnose-lib/pinned-runner.mjs (Classify).
--   Debugger       diagnose-lib/debugger-control.mjs: `validateFrame`, `validateSequence` (Control).
--   Load           The controlled-load experiment, which compares a target CPU's failures without load
--                  (A1), under load on other CPUs (B), and without it again (A2).
--                  diagnose-lib/managed-workload-result.mjs `parseManagedWorkloadResult` (Managed);
--                  diagnose-lib/controlled-load-workers.mjs: the parsers of the start, boundary and stop
--                  evidence (Workers, Stopping), and `startControlledLoadWorkerSet` with the methods of
--                  the set that it gives (WorkerSet), a function on its variables for each
--                  continuation, callback and method; `Step` is what may happen next, in any order
--                  (Steps). diagnose-lib/controlled-load-session.mjs: the manifest and its schedule
--                  (Session), `validateEnvelope` (Envelope), `buildControlledLoadSessionEnvelope`
--                  (Build), `runControlledLoadSession` (Runner) and `waitForMonotonicInterval` (Wait).
--   Campaign       src/fault-affinity/campaign-topology.mjs: the profiles (Profiles), the reads of
--                  sysfs and lists of CPUs (Sysfs), the cores and `partitionContext` (Units),
--                  `discoverCampaignTopology` (Topology).
--   Discovery      src/fault-affinity/loaded-discovery.mjs: the plan's builder and parser (Plan), the
--                  comparator of the report's rows and the strongest candidate (Ranking), the report
--                  (Report).
--   Prelude        Boolean tests, lists over native numbers, outcomes, sorting, increasing lists.
-- Schedule is used by ExactCpu and Load; CpuList by Campaign, and Campaign by Discovery, whose plans
-- are of discovered topologies; Attempt's limits on strings, and the interface of ExactCpu to attempt
-- evidence, by the phases and Load. Text and Prelude are used by all.
--
-- How the code is read. A call that throws is an `Outcome`: `throw e` names the exception by the
-- condition that it reports, `ok a` is the returned value. An array is a list, a record a record. A
-- number that the code has checked to be an integer is a natural number: negative numbers and
-- fractions, which those checks refuse, are not representable, nor are objects with other keys
-- (`exactKeys`). Two canonical JSON texts are equal when their records are, field by field.
-- A profile's name that Object.prototype has is `inherited`: the look-up finds a value whose numbers are
-- undefined, and an undefined number of a plan is `none`.
-- `Array.prototype.sort` is stable insertion, which gives the same list for the comparators here.
--
-- Fuel. `draw`, the loop of `randomBelow`, has 2 ^ 32 rounds, one for each state of the generator,
-- which walks through every 32-bit word and gives 0 at one of them; `build_blocks` has one round more
-- than the schedule, and each of its rounds covers at least one; `emit`, which prints a number, has
-- one round more than the number, and uses one for each digit. Fuel that ran out is `diverged`. The
-- loops of Load and Campaign are over lists or counts, and need no fuel.
--
-- Parameters. `known_signal` is membership in `os.constants.signals`; `digest`, `short_digest`,
-- `plan_binding`, `identity_sha256` and the digests of a controlled-load session are SHA-256 from
-- node:crypto; nothing is assumed of them but, where a theorem says so, that they are 64 hexadecimal
-- digits. `Evidences` and `MeasuredEvidences` are the interfaces to diagnose-lib/attempt-evidence.mjs,
-- and the runner of an attempt is a function that returns a result or throws. A session runs over a
-- `Driver`, whose calls (an attempt, the start, verification and stop of the worker set, a wait) change
-- a world of their own and may throw. `Sysfs` is what the reads of /sys find. `IsTopology` is what the
-- plan's builder relies on in a topology, increasing CPU ids in range and a known source; what
-- `discoverCampaignTopology` returns has it.
--
-- Not modelled: files, locks and sockets, /proc and /sys, rendering of reports, the command line,
-- floating-point statistics, and the shell and C sources; the manifest lists them.
pub mod Prelude
pub mod Schedule
pub mod Text
pub mod CpuList
pub mod Debugger
pub mod Campaign
pub mod Discovery
pub mod Attempt
pub mod ExactCpu
pub mod Baseline
pub mod Load
