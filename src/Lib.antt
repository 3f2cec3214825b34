-- ===== src/Lib.antt =====
-- A verification library of the AI runtime gateway (app/gateway, Python): what decides whether an
-- inference request may run, on which backend, and what it is charged.
--
-- The program. A chat request (routers/chat.py) passes the tenant's policy and the drain test,
-- takes a global slot (resilience.py) and a lease of its tenant (admission.py), reserves its
-- estimated cost with the budget guard (budget_guard.py, budget_policy.py), is put to the control
-- plane (governance.py), whose signed decision is bound to the request (decision_token.py) and used
-- up (decision_replay.py), gets a backend (services/routing.py) and is sent there with a fallback
-- (services/completions.py) under the circuit breaker and the retry budget (resilience.py). Then
-- the reservation is settled, the decision recorded (decisions.py), and lease and slot given back.
--
-- The files, and the code that they model (paths below app/gateway):
--   Base, Dict, Int, Http   shared names and lemmas, Python's dict and int, and the HTTPException
--                           as a value: status, code and Retry-After
--   Money                   Python's Decimal in its default context, and the micro-units of
--                           budget_guard.py (usd_to_micros, charge_to_micros, budget_to_micros)
--   Budget.Policy           budget_policy.py: the document, scope_for, price_for, the estimate
--   Budget.Window           _MemoryWindow with _expire_memory, _roll_window and the locked parts of
--                           _reserve_memory and _settle
--   Budget.Decision         BudgetDecision, _deny_for, _interpret_reserve_result
--   Budget.Guard            InferenceBudgetGuard: _eval, reserve, _settle, purge_expired,
--                           snapshot_micros; Budget.Reservation the methods of BudgetReservation
--   Budget.Invariant, Held, Expiry, Admission, Settlement, Trace, Backends, ByStore, FailClosed,
--   Lifecycle, Pricing      the lemmas and theorems on them
--   Budget.Scripts          the Lua scripts of budget_guard.py; Budget.Commands is the interface of
--                           the Redis commands that they use; Mirror says when a Redis holds the
--                           window of the in-process store, Fleet has any number of replicas
--   Resilience.Breaker      CircuitBreaker; Circuit is the machine of one circuit, View what the
--                           breaker keeps of it; Opening and Probes are about them
--   Resilience.Retry, Drain RetryBudget.consume; DrainState
--   Resilience.Shedding     GlobalAdmissionController, cut where it awaits; Counters has the tasks
--                           as a step relation
--   Routing                 config.py's ModelRoute and its validator, select_route_target,
--                           resolve_route, resolve_shadow_backend; Weights counts the buckets;
--                           Health is select_health_aware_backend
--   Completions             post_completion_with_fallback, routing_reason; Outcomes and Probes
--   Admission               the Lua scripts of admission.py; Commands is the interface of the Redis
--                           commands that they use, Fleet the theorems for any number of replicas
--   Admission.Local         TenantAdmissionController in the process, cut where it awaits; Slots and
--                           Accounts have the tasks as a step relation; Leases is acquire_lease with
--                           its backends, AdmissionLease.release and the loop that renews
--   Tenancy.Policy          tenant_policy.py: the policy of a tenant and its allowlists
--   Tenancy.Quota           TenantAttributionStore of tenant.py; History, Stamps and Windows are
--                           about its requests, Ledger about its tokens
--   Tenancy.Scripts         RedisTenantAttributionStore and its Lua scripts, on the interface of
--                           Tenancy.Commands; Agreement compares the two stores
--   Replay                  InMemoryDecisionReplayStore, verify_token_binding; SingleUse
--   Governance              enforce_governance, bind_signed_decision; Verdicts and Binding
--   Decisions               InMemoryDecisionStore and get_decision; Retention and Isolation
--   Mcp                     mcp_transport.py: servers, sessions and credentials; Stream the parser of
--                           answers, Sessions and Calls what is sent to servers, Pinning below both the
--                           capability digests; Tools is mcp.py and the call of a tool in
--                           routers/mcp.py, Tools.Permission when it runs
--   Streaming               observe_upstream_stream, classify_stream_outcome; Outcomes
--   Chat                    chat_completions and _chat_completions_admitted: what a request holds
--                           and gives back; Cleanup and Refund
--   Usage                   usage_events.py: the queue of usage events, its worker and its close;
--                           Service has them as a step relation; Accounts, Attempts and Sends
-- A module Witnesses holds concrete runs and the theorems applied to them.
--
-- State and operations. A shared object is a record; a method takes it and returns the new one with
-- its answer. What runs under a lock, or between two awaits, is one function; where the order of
-- such sections matters they are the steps of a relation (Budget.Trace, Budget.Scripts.Fleet,
-- Resilience.Shedding, Admission.Local.Slots, Tenancy.Quota.Ledger) or a
-- list of calls (Resilience.Breaker.View, Decisions.Retention, Admission.Fleet). An exception is an
-- `err`. A clock, a new uuid, a digest, the verification of a signature, the answer of Redis to a
-- script of the budget guard and that of a backend are arguments; the answers of MCP servers are a
-- function of what was sent, and Python's functions on texts and JSON are a record. Times are whole ticks, in
-- milliseconds where a unit matters, and a difference of times is written as a sum. A float that
-- comes from a document is a decimal, an infinity or a NaN; the spend of a team is
-- the expression that computes it, or a text in Redis, and is not evaluated; a day is a number.
--
-- Fuel. Only the rounding of a Decimal to its context runs on fuel, the coefficient itself: it is
-- more than the number of its digits, of which one is dropped a round (Money.Bounds). All other
-- loops are over a list.
--
-- Not modelled. Texts of messages, metrics, spans and headers; loading of configuration; the Redis
-- decision and replay stores; the health store, whose scores are floats; the reload of a script that
-- Redis forgot, but in the budget guard; the catalogue of tools; how a usage event is built; a stream
-- whose generator is never started; authentication; the cost-aware choice of a backend, whose
-- scores are floats as well; the time at which Redis drops a whole key
-- (that of the leases may go at any step); a cancellation of a task anywhere but at
-- a semaphore.
pub mod Admission
pub mod Base
pub mod Budget
pub mod Chat
pub mod Completions
pub mod Decisions
pub mod Dict
pub mod Governance
pub mod Http
pub mod Int
pub mod Mcp
pub mod Money
pub mod Replay
pub mod Resilience
pub mod Routing
pub mod Streaming
pub mod Tenancy
pub mod Usage
