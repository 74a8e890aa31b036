-- ===== src/Lib.antt =====
-- Khalij iEMS: a model of the energy, carbon and sustainability management system under app/, and
-- theorems on its core. Advice is computed from the plants' readings, queued as recommendations,
-- accepted, approved and applied to the plant; emissions of a period become reports, which are
-- assured, locked and sent to a registry; roles decide who may do what.
--
-- Where each part is modelled:
--   Base            lists, tables by key, results of calls that raise, float operations
--   Config          app/core/config.py: Settings and its methods on the sources of data
--   Ingestion       app/ingestion: TagMap (tag_map.py), OpcuaWrite (opcua_write.py: the plan against
--                   the allowlist, the dry run, the live writes), Quality (quality.py), Freshness
--                   (freshness.py), Session (opcua_session.py)
--   Plant           Physics (app/services/physics.py), Live (app/services/live_reading.py),
--                   Snapshots (app/optimization/snapshots.py), Sensors (app/repositories/sensors.py)
--   Optimization    app/optimization: Model (the rows of app/db/models.py), Engine (engine.py), Store
--                   (store.py), Apply and Impact (apply.py). Trail is the status machine that
--                   the audit events follow, Steps what one call may do to the tables and the plant, Workflow the calls
--                   in any order
--   Demo            MemoryRecs (app/demo/memory_recs.py), and MemoryReports
--                   (app/demo/memory_reports.py), the stores of the demo mode
--   Rto             app/rto: one cycle (engine.py) and one round of the scheduler (scheduler.py)
--   Ml              app/ml: Registry (registry.py), Calibrate (physics_calibrate.py), Dataset (dataset.py),
--                   Learning, Train and Trust (train.py), Trainer (trainer.py), Features and Serve (serve.py),
--                   Simulate (serve.py, app/optimization/simulate.py), Api (app/api/routes/prediction.py)
--   Carbon          app/carbon: Scopes (factors.py, scope3.py and app/services/carbon.py), Reports
--                   (reports.py), Periods (periods.py, reports.py), Assurance (assurance.py), Market
--                   (market.py). Trail, Steps and Workflow are as in Optimization
--   Routes          app/api/routes/optimization.py: Memory and Analysis (what a route does on the demo
--                   memory, and the analysis), Recommendations (the routes), Requests (any sequence of
--                   them), Effects and Refinement (over the workflow), Demo (on the demo memory)
--   Security        Roles and Auth (app/services/auth.py, app/security/totp.py), Deps (app/api/deps.py),
--                   Claims and Oidc (app/services/oidc.py)
--
-- How the code is rendered. A handler is a function from its arguments and the state to a result and
-- the state after it; a call that raises is the result `err`, and what was committed before stays in
-- the state. A table is an association list by id; an optional column is an Option. A column of JSON
-- text is held as the value that it encodes. Instants are numbers, passed as arguments where the code
-- asks the clock. `Workflow.run` of Optimization and of Carbon serves any list of requests one after
-- the other; two requests that interleave inside one session are not covered, and the commits inside a
-- call succeed there. A call of the store that breaks off between the rows and their events is an
-- argument of the analysis route and of the scheduler (Storing), an exception inside a training one of
-- the trainer (Crash), and whether a batch can be staged one of the sync. All loops are structural
-- recursion on a list, so there is no fuel.
--
-- What stands for code outside the repository. Floats are an interface (FloatOps), whose laws are
-- assumed only where a theorem names them (HasOrder). The OPC server is a record of its answers
-- (OpcServer, OpcClient), the registry's answer a function of the batch, the digests of passwords,
-- tokens and one-time codes a record (Digests). A token is held as the parts that its text is joined
-- from; it is refused where the split of the text does not give them back. What numpy and torch compute for a model is a record of functions
-- (Learning), and a trained model is the function that it predicts with; the MLflow server is given by
-- what a run does (MlflowRun). The factors and tag map files are arguments, as is the row of the
-- SQL aggregate of a report. Rows that a query orders alike keep the order of the table.
--
-- Not modelled: the numerics of the models under app/ml, the streaming loops, the OPC simulator, the
-- other routes under app/api/routes, the loops of the schedulers, the other demo stores, the exports and the
-- ESG pack, schema migrations, the settings' environment, and the texts of messages.
pub mod Base
pub mod Config
pub mod Ingestion
pub mod Ml
pub mod Optimization
pub mod Carbon
pub mod Security
pub mod Routes
pub mod Plant
pub mod Demo
pub mod Rto
