-- ===== src/Lib.antt =====
-- Verification of the dynamic reports of the Roya API (src/modules): the flow engine, the jobs that
-- run it, and the services that keep report types, analyses and reports.
--
-- A report type holds a flow: nodes, each with a node definition from the catalog, and
-- connections between their ports. The builder's validation accepts or refuses a flow. A published
-- flow is executed: its nodes in topological order, each with the values that its connections bring,
-- and the outputs of its terminals become the report's typed fields. An analysis has reports, one
-- for each report type; a job of the queue runs them one after the other and writes what each run
-- gives, or its failure, on the report.
--
-- What is modelled, and where (paths from src/modules):
--   Enums        common/enums/builder-node.enum.ts, builder-asset-status.enum.ts.
--   Category     common/node-category-rules.ts: `NODE_CATEGORY_RULES`, `resolveCategory`,
--                `isCategoryPairAllowed`.
--   FlowGraph    report-types/dynamic-flow-graph.validation.ts and dynamic-flow-validation.types.ts.
--     Definition   a node definition from a catalog row, merger detection.
--     Compatible   `pointByKey`, `valueTypesCompatible`, `kindsCompatible`,
--                  `terminalSourcesCompatible`.
--     Cycle        `hasCycle`. Its recursion has fuel, one round for each node id: a call enters a
--                  white node and makes it gray, so no more than that are nested.
--     Reached      the breadth-first search. Its fuel is one round for each root and connection:
--                  an id is expanded once, and its connections are queued then.
--     Nodes, Wires, Cardinality, MapperRules, Validate
--                  the phases of `validateDynamicFlowGraph`, and the whole. A loop that pushes
--                  issues is a function to the list of issues that it pushes.
--     Accepted     what a flow without blocking errors is, and the proof, phase by phase.
--   Value        JSON values and `undefined`, and the tests on them that the code writes inline.
--   Execution    analyses/dynamic-flow-node-execution.types.ts: nodes, connections, the runtime.
--     Order        `topologicalOrder` of analyses/dynamic-flow-execution.service.ts. The fuel of its
--                  loop is one round for each node and connection: an id is queued at the start or
--                  by a connection, and a connection is taken off once.
--     PortMerge    analyses/dynamic-flow-port-merge.util.ts, `collectIncomingByPort`,
--                  `collectMergerInboundArray`.
--     Upstream     `checkUpstreamFailurePropagation`, `transformFlavor`,
--                  `resolveInputsForNodeTrace`, `incomingByNode`.
--     OutputSchema analyses/dynamic-flow-output-schema.util.ts. A payload that is nothing but ports
--                  is unwrapped again and again: the fuel is the payload's weight, in which an array
--                  and a scalar count nothing, a port's key two and another key one.
--     Run          the loop of `runPublishedFlow`; Run/Report its terminals and result, Run/Published
--                  the look-up of the published version before it.
--     Executors    analyses/dynamic-flow-node-executors.service.ts, with the two tables of common that
--                  it reads; Executors/Registry has the executors that call other services. Each
--                  service is a parameter, the mapper of analyses/dynamic-flow-mapper.service.ts too.
--   Documents    the rows of reports, analyses, report types and jobs: reports/report.schema.ts,
--                analyses/analysis.schema.ts, report-types/report-type.schema.ts and the status enums
--                of common/enums. A collection is a list; an update writes the first row that matches.
--   Reports      reports/reports.service.ts. Payload is reports/utils/mongo-payload-bound.util.ts: its
--                28 rounds are those of the code; the limit starts at 400000 and is halved, but not below
--                512, in the last rounds 256. Update is `appendExecutionTry` and
--                `applyDynamicFlowExecutionUpdate`, View the reads, with
--                common/utils/analysis-reports.mapper.ts, Actions `regenerate` and the others.
--   Analyses     Processor is analyses/analysis.processor.ts, Service analyses/analyses.service.ts,
--                Payloads how a run's result is written as JSON. System has the calls and the jobs as
--                steps of one store and one queue, and what holds in every state they reach.
--   Subscriptions  `checkAndIncrement` of subscriptions/subscriptions.service.ts.
--   ReportTypes  report-types/: the versions of a report type.
--     Snapshot     report-type-flow-snapshot.ts. Its search has fuel for the roots and every
--                  connection, as in FlowGraph/Reached.
--     Validation   report-type-builder-validation.service.ts, and the loading and normalization of
--                  definitions in report-types.service.ts.
--     Lifecycle, Publish, Copies
--                  the calls of report-types.service.ts that make, save, validate, publish, archive,
--                  rename, copy and remove. The search for the slug of a copy has one round more than
--                  there are slugs: the slugs it tries are different.
--     Schemas, Legacy
--                  the fields that the reads of report-types.service.ts derive.
--   Prelude      JavaScript's `Map` as an association list in insertion order, its `Set` as a list
--                without repetitions, template strings, `trim`.
--
-- Conventions. An optional or nullable field is an `Option`. Values that a persisted row may hold
-- in any form are taken as the code's own casts have them, but for the label of a node, whose English
-- text may be no string. The localized texts of report types are maps of strings, as their schema
-- casts them. A lookup by a string in an object literal finds the literal's own keys alone, not those
-- of `Object.prototype`. Mongoose takes `undefined` properties out of an update. Counts and bounds
-- of connections are natural numbers. The registry of node executors is a function that may throw,
-- a parameter of the run: since a node is executed at most once in a flow with distinct ids, the
-- answers of any run are such a function. `toLowerCase` is a parameter. Times, log lines and the load
-- of provider connections and keys are left out. Message texts and paths of issues are built as in
-- the code.
--
-- A service's call is a function from the rows to its answer and the rows after it; an exception is a
-- `Reply`. The ids of new rows, the time and the size of a payload are parameters. A call runs to its
-- end before the next, as one worker runs the jobs; the database and the queue do not fail.
--
-- Not modelled: the reads that page, search or count in the database, `update` of report types, which
-- writes whatever fields it is given, and the use of builder assets; the services of builder assets,
-- data sources, connections, plans and organizations; tokens and authentication; the clients of other
-- services; the mapper, whose rules write into objects that other nodes share; controllers, the DTO
-- decorators, the seeder and the module wiring.
mod Prelude
pub mod Enums
pub mod Category
pub mod FlowGraph
pub mod Value
pub mod Execution
pub mod Documents
pub mod Reports
pub mod Subscriptions
pub mod Analyses
pub mod ReportTypes
