-- ===== src/Lib.antt =====
-- Verification library of the container image factory: the Python code under scripts/pipeline/ that
-- builds, selects, promotes and watches the base images.
--
-- Parts, and how they interact:
--
-- Base: lists, results, orders, decimal texts, maxima, and actions that change a state and may stop
-- (Base/Act), with what holds before and after them (Base/Act/Triples).
--
-- EvidenceStore: scripts/pipeline/release/evidence_store.py. `EvidenceStore.get`, `keys` and `create_once`
-- are state passing functions over the interface `Transport`; Content is `FrozenObject` with `freeze`;
-- Memory is `MemoryTransport`. The custody of evidence uses this store.
--
-- BuildTag: the tags of builds, in scripts/pipeline/release/find_promotion_candidate.py (`is_build_tag`,
-- `build_tag_order`) and verify_promotion_pair.py (`run_identity`), on code points.
--
-- Candidate: `select_candidate`, `skip_reason` and `stable_state` of find_promotion_candidate.py, over the
-- images that the registry lists. Times are numbers of seconds or microseconds, as the source compares
-- them.
--
-- Release/Choice: `verify_candidate`, `verify_approved` and `choose` of
-- scripts/pipeline/release/lifecycle.py, on the documents of Release/Data. The consumer verification is a
-- parameter.
--
-- Release/Documents: `release_units` and `validate` of scripts/pipeline/release/release_manifest.py, with
-- the catalog and the scenarios of scripts/pipeline/consumer_apps/model.py. Units is about what they
-- return.
--
-- Release/Publication: `publish_states`, `write_stable` and `stable_digest` of lifecycle.py, `Store.get`
-- and `Store.put` of release_store.py and `read_index` of release_trust.py. The bucket and the registry
-- are the interface Release/Destination: each call returns, fails with an exception that the code handles,
-- or ends the process. `publish_states` is one action in the order of the source; Steps says what each
-- call of it does, Covered what keeps the members of a release safe, and Outcome what the whole leaves;
-- Views and Stores say what a write does, Agreement and Kept what the whole keeps, Accepting and Returns
-- are about a destination that accepts every call. Release/Rehearsal is a destination in memory that meets
-- the laws, on which the tests run, and Release/Rehearsal/Willing is one without a limit of writes.
--
-- Release/Site and Release/Lifecycle: Site is what a command of lifecycle.py works on: the destination
-- with its last receipt, the state of the tools (an interface: the AWS CLI, the trust, scan and copy
-- tools, the runner of the consumers, the store of the source, the reports), and the trail of the calls of
-- tools that returned. Lifecycle has what the commands are given and how they read and write the store;
-- its child Dev has `approve_dev`, `complete_dev` and `promote_dev`, and Hom has `promote_hom`,
-- `recover_hom` and `main`. Steps, Gates and Warrant are what their parts keep, the calls that their gates
-- leave in the trail, and why a release may be published, Reads and Names which states are read; DevRuns
-- and HomRuns carry this through each command; Agreement, Gated and Approval are about whole runs. A run
-- has the invocations one after the other, as the workflow's lock has them. `validate` (which Documents
-- has, on a record with all the fields), `verify_consumers`, `verify_image`, `copy_image` and
-- `from_publications` are parameters.
--
-- Alerts: `verify_ack`, `classify`, `deliver_one`, `run_cycle` and `report` of
-- scripts/pipeline/operations/alert_delivery.py. The destination of alerts is the interface `Adapter`; the
-- run is the state `Cycle` with the ledger. Delivery/Kept is what a delivery keeps, Delivery/Once and
-- Cycle/Open count the alerts that are open, Delivery/Held says where the records of a run come from, and
-- Cycle/Genuine reads the ledger. Alerts/Report is `report` and `not_configured`.
--
-- Alerts/Send: `deliver` of scripts/pipeline/operations/alert_events.py for an approved destination, over
-- a transport. Bounded is about the number of its attempts, Safe about what it repeats.
--
-- Promotion: scripts/pipeline/release/promotion_batch.py with verify_promotion_pair.py,
-- verify_promotion_pairs.py, verify_stable.py and scripts/pipeline/artifacts/image_reference.py. Reference
-- is the form of a digest reference, Evidence the evidence of a framework with `record_outcome`,
-- `verify_pair` and `verify_completed_pair` (its child Recorded has all three), Registry the outside, Work
-- the state, Stable `verify_stable`, Batch the phases before the writes, and Run the writes and
-- `promote_batch`. A unit holds the evidence of its frameworks, which no other unit has. In Run, Rules and
-- Units are about loops, Quiet, Evaluations, Loops, Writes, Readback and Closing follow a unit through the
-- phases, Whole and Ends the batch, and Reports says what comes of it. The trace lists what was done
-- outside, the latest first.
--
-- Health: scripts/pipeline/operations/operational_health.py. Cron is `cron_field` and `cron_occurrences`,
-- on microseconds since a midnight in UTC and numbers of digits alone; Schedule is `executed_groups`,
-- `attribute_runs` and `schedule_health`, without its rounded figures, and takes `jobs_for` as a function;
-- Evaluate is `evaluate`, whose ages and limits are in hundredths of an hour; Frameworks is
-- `framework_health` without the ages, and takes the evidence of a run as a function.
--
-- Contract: `publication_contract`, `plan`, `supported` and `project` of
-- scripts/pipeline/runtime/runtime_images.py, and the loop of `promotion_units` of promotion_batch.py that
-- takes its units from them. Pairs is about a resolution, Units about the loop.
--
-- Bounds: numbers are natural numbers, as integers of Python have no bound here. Loops are structural
-- recursion over lists; the attempts of a delivery recur on the number of attempts that the policy allows.
-- The `while True` of `deliver` has the same number as its fuel: after that many attempts the source
-- leaves the loop, so it is enough. The loop of `cron_occurrences` has the number of the whole minutes of
-- the window as its fuel, which is the number of its rounds.
--
-- Not modelled: command lines, files, the subprocesses of aws, docker, oras, gh and cosign, which are
-- input and output; texts of errors and reports; the analytics, governance, catalog, consumer and
-- infrastructure code, and the runs of containers.
pub mod Base
pub mod EvidenceStore
pub mod BuildTag
pub mod Candidate
pub mod Release
pub mod Promotion
pub mod Health
pub mod Contract
pub mod Alerts
