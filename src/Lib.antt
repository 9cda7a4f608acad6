-- ===== src/Lib.antt =====
-- LambdaCIActions runs GitHub Actions jobs on AWS Lambda microVMs. A webhook (src/ingest) claims a job,
-- writes a queued run row and queues a request; Provision (src/provision) resolves the job's labels to
-- a flavor, mints the configuration of a single-use runner and launches a VM; inside the VM a hook
-- asks the broker (src/hook) for that configuration and, at the end, to be terminated; the Reaper
-- (src/reaper) closes what got lost. All of them share the run rows in DynamoDB (src/shared/run-store.ts)
-- and the flavor catalog (src/shared/flavor-catalog.ts). The console reads the same facts through
-- src/mgmt.
--
-- Files and the code they model:
--   Common, Common/*           strings as lists of UTF-16 code units, lists, sorting, sets of texts
--   Shared/Types               src/shared/types.ts: rows and enumerations
--   Shared/FlavorCatalog       src/shared/flavor-catalog.ts, microvm/flavors.json
--   Shared/RunStore            src/shared/run-store.ts: canTransition, the pure builders of writes
--     Rows, Writes               what an update does to a row; putQueuedRun, transitionRun and
--                                stampMicrovmId over a record `Dynamo` of the service's operations and
--                                their documented behaviour, errors included
--     Machine, Later, History, Guarded, Once   the diagram of statuses and the theorems on writes
--     InMemory                   a table that satisfies `Dynamo`, for the examples
--   Shared/FlavorStore         src/shared/flavor-store.ts: the rows of the custom flavors, their writes and
--                              their validation states (Validated, Registered)
--   Shared/Microvm             src/shared/microvm.ts: launchMicroVM, listMicroVMs, getMicroVMImageState
--   Shared/Redact              src/shared/redact.ts: redactSecret (redact_secret)
--   Shared/Quota               src/shared/metrics.ts: isQuotaError (is_quota_error)
--   Shared/Readiness           src/shared/flavor-readiness.ts
--   Shared/Allowlist           src/shared/allowlist.ts
--   Ingest/Adopt               src/ingest/adopt.ts: decideClaim (decide_claim)
--   Ingest/Filter              src/ingest/filter.ts
--   Ingest/JobMatch            src/ingest/job-match.ts: matchJobAnalysis
--   Ingest/Refusal             src/ingest/refusal.ts: classifyRefusal (classify_refusal)
--   Ingest/Signature           src/shared/hmac.ts and, of src/ingest/handler.ts, verifyWithRotation
--   Ingest/Installation        src/ingest/install-filter.ts, src/discover/filter.ts and, of
--                              src/ingest/handler.ts, handlePush and handleInstallation
--   Ingest/WorkflowJob         src/ingest/handler.ts: handleWorkflowJob (handle_workflow_job) with all its
--                              gates, claimLabelsWithCustom, the refusals and handleStatusUpdate
--   Provision/Labels           src/provision/labels.ts, and the guards that provisionOne in
--                              src/provision/handler.ts makes before a mint (mint_labels)
--   Provision/Reasons          the texts of the errors and reasons of those two files
--   Provision/Handler          src/provision/handler.ts: provisionOne (provision_one), the lookup of the
--                              options, the image, and the batch handler; Routes and Tried list the ways
--                              through it, and the other children hold the theorems
--   Provision/Flavor           src/provision/flavor.ts: resolveFlavor (resolve_flavor)
--   Reaper                     src/reaper/reap.ts and handler.ts: reconcileRuns, the sweep
--   Hook, Hook/Broker          src/hook/broker-core.ts and handler.ts: parseHookRequest, createHandler
--   Hook/JitConfigs            src/shared/run-store.ts: the put of putJitConfig, getJitConfigByRef
--   Mgmt/Paging                src/mgmt/paging.ts: collectVisible
--   Mgmt/Router                src/mgmt/router.ts: the route table, matchRoute
--   Mgmt/RunRollup             src/mgmt/run-rollup.ts: the folds of statuses, flavors and durations,
--                              the completeness of a window; groupRuns in Groups. Its labels are not
--                              modelled
--   System                     the webhook handler, the provision consumer and the reaper on one table
--   Witnesses                  the theorems at concrete inputs
--
-- Bounds and conventions. `toLowerCase` and `trim` are written for ASCII letters and the blanks of
-- ECMAScript. Times are milliseconds since the epoch, so an ISO text stands for its time, and
-- `now - t > d` is written `t + d < now`, which is the same for times in the future. A prose reason
-- that the code fills in is a constructor with its arguments, except the reasons that a
-- run row shows, which are texts. `localeCompare` on flavor names, which are lower-case ASCII, is the
-- order of code units; in the rollup of runs it is a parameter.
-- `JSON.stringify` is written for texts without lone surrogates. The clocks, the random token and the
-- answers of the services to one invocation are the fields of a record (`Deps`), where an outer `none`
-- is a call that throws; a log line and a metric are left out. A sampling rate is given by the whole
-- part of its inverse. Digits of `n` are read with fuel `n + 1`,
-- and a number below the fuel is read in full (Common/Text/Decimal). Loops are recursion on their
-- lists; the loop over pages is recursion on its budget of pages, which the code has too.
-- The listing of the VMs is on fuel, of which the number of pages is enough (Shared/Microvm/Pages).
--
-- Parameters: DynamoDB (`Dynamo`; the items of the flavor store and
-- of the JIT configs are written out), the parameter store,
-- GitHub's mint, the queue, HMAC and SHA-256 and the decoding of hex, the random token, the lists and the
-- control API of the microVMs, the reads of the handlers, the query of an index page,
-- the decoding of a percent-escaped path segment, the faults of the installation store.
--
-- Not modelled: the infrastructure (lib, bin), the console (web), the images and scripts (microvm,
-- scripts), the AWS and GitHub clients; of src/ingest/handler.ts the dispatch of an event with its
-- heartbeats; the handlers of src/mgmt, src/appcfg, src/rewrite,
-- src/discover and src/flavorval, which come next where they are more than I/O.
pub mod Common
pub mod Shared
pub mod Ingest
pub mod Provision
pub mod Reaper
pub mod Hook
pub mod Witnesses
pub mod Mgmt
pub mod System
