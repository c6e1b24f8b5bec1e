-- ===== src/Lib.antt =====
-- A verification library for jev-router, a proxy that reads a classifier's answers about a request
-- and chooses the model and the effort that the request is sent with.
--
-- The parts, and how they meet:
--   - Config, Features: the records of router.yaml that the modelled code reads, and what is known of
--     a request (src/jev_router/config.py, src/jev_router/features.py). A record holds those fields
--     only. A lookup that raises KeyError in Python gives `none`.
--   - Policy: one request (src/jev_router/policy.py). Policy/Answers is what routing reads of an
--     answer's distribution; Policy/Match is FEATURE_CONDITIONS, shift_amount, _answer_matches and
--     matches; Policy/Rules is _match_rules; Policy/Gate is _pick_route and _action_equivalent; Policy/Efforts is
--     constrained_effort, clamp_effort and apply_effort; Policy/Eligible is fits, eligible_models and
--     excluded_models; Policy/Routes is resolve_use and order_entries; Policy/Finalize is finalize,
--     _apply_guards and validate_entry; Policy/Evaluate is evaluate with its experiments;
--     Policy/Budget is context_budget, the check of a context window; Policy/Select is select and the repair into a quality lane, where the field is_calm keeps the
--     sharing of the two results. RoutingError is a value, Policy/Failures.
--   - Turn: the effort between the turns of a session (src/jev_router/effort.py). Turn/Evidence is
--     what a turn shows, Turn/Target the rung it asks for (_target_index), Turn/Plan the decision
--     (plan_turn), Turn/Ledger the rows of planned changes and their lifecycle (open_change,
--     reconciliation_hole, advance, effective_after).
--   - Session: the strict session store (src/jev_router/sessions.py). Session is its rows and tables,
--     where a statement of SQL is what it does to the list of a table's rows (Common/Table).
--     Session/Claims is claim and release; Session/Contract every write to the table of sessions
--     (create, update, close_session, touch; Turns: compact, the counters, prune), Once the writes
--     that land once, Commands any sequence of them; Session/Requests is start_request,
--     finish_request and _trim_requests; Session/Plans the ledger of turn plans (record_plan,
--     update_plan, applied_updates), with reconcile in Session/Plans/Reconcile.
--   - Quota: a provider's windows of usage and their pressure (compute_pressure of
--     src/jev_router/quota.py), Quota/Monitor the record that polls keep of it, Quota/Exhausted a
--     window that has run out. Policy takes the pressures as an argument.
--   - Deciders: the JSON values that the classifier sends back, and their validation
--     (src/jev_router/deciders/validation.py): Policy reads an answer only after it.
--   - Common: lists, dictionaries as association lists in insertion order, results, sorting.
--   - Fixtures: concrete configurations and turns for the tests.
--
-- Each statement of the session store holds the store's lock to its commit, so a method with one
-- statement is one step on the tables, and a run is a list of such steps. compact reads and writes
-- under the lock apart: its definition takes what other calls do in between. reconcile is stated for
-- a run of its own, with no other write among its statements. A reading of the clock is an
-- argument, a whole number of ticks: `clock - a > b` is stated as `a + b < clock`.
--
-- Python's integers are natural numbers where the code keeps them so, and a subtraction that could
-- go below zero is written out beside its definition. Python's floats are an interface,
-- Common/Float: the carrier and its operations are arguments of every definition that uses them, and
-- a theorem that needs a law of floats takes it by name (Policy/Match/Shifts.ShiftLaws,
-- Policy/Budget/Fits.Shrinks, Quota/Monitor/Bounded.OrderLaws), stated so that it holds of the infinities and the NaN too. The tests fill the interface with decimal fixed
-- point. No definition uses fuel: every loop of the code is a structural recursion over a list.
--
-- The texts that the code builds for a reader are constructors of a type where the code branches on
-- them or where they tell the branches apart, and are left out where it only shows them.
--
-- Not modelled: the HTTP server, SQLite itself with its migrations, the queries of the audit pages,
-- the calls of the classifier and the providers, the sources
-- of quota readings, the YAML loader, and, so far, the replay of a logged decision and the pins.
pub mod Common
pub mod Config
pub mod Deciders
mod Fixtures
pub mod Features
pub mod Turn
pub mod Policy
pub mod Quota
pub mod Session
