-- ===== src/Lib.antt =====
-- Verification of the document management backend: the workflow service (services/workflow-
-- service/src/workflows), the sessions and passwords of the auth service (services/auth-
-- service/src/auth), the retries of the Kafka consumers (packages/common/src/kafka), and the
-- structure of organisations (services/org-service/src/org-structure).
--
-- A workflow carries a document through a chain of approvers, then through review cycles that its
-- final users start, until a final user closes or cancels it. WorkflowApprovalService holds the
-- approval, WorkflowAdminCycleService the review cycles and the end; both ask
-- workflow-state-machine.ts whether a status may change, write a timeline through
-- WorkflowTimelineService and send messages to Kafka.
--
-- Base.antt and Base/: lists over the native numbers, the stable sort of JavaScript arrays, tables
-- with unique columns, `trim`.
-- Workflow/Enums, Workflow/Entities: entities/*.ts, the rows as records.
-- Workflow/Errors: the HTTP errors the services throw, as values; Errors/Laws: their chains.
-- Workflow/Store: the tables and the outbox as one record Db, the queries and updates that the
-- services make, and Env: the clock, the ids the database gives, and the answers of
-- document-service (`isReviewCycleEnabledForTypology`) and user-service (`getUsersByPosition`),
-- which are parameters. Store/Laws: reads after writes. Workflow/Events: the events and
-- notifications built from a row, for workflow-timeline.service.ts and
-- packages/common/src/kafka/kafka-producer.service.ts.
-- Workflow/StateMachine: workflow-state-machine.ts; StateMachine/Graph: its edges as a relation.
-- Workflow/StepOrders: `validateApproverStepOrders` of workflows.service.ts, which is also the
-- check of `createCycle`.
-- Workflow/Approval with Approve and Reject: workflow-approval.service.ts. `startApproval` is
-- start_approval, and likewise approve, reject and resubmit. These methods read before their
-- transaction begins, so each is a read_… followed by a commit_…, and a definition such as approve
-- is the run in which nothing happens between the two. Approval/Chain, Turns, Start, Rounds,
-- Rejection: the chain of approvers.
-- Workflow/AdminCycle with Create, Complete, Forward and Finish: workflow-admin-cycle.service.ts,
-- one definition for each method; the methods lock the row of the workflow and are one step each.
-- AdminCycle/Create/Rows, Create/Begins, Complete/Turns, Complete/InOrder, Complete/Queue,
-- Complete/Rounds: the queue
-- of reviewers from the beginning of a cycle to its end. AdminCycle/Finish/Access: who may act.
-- Forward/Shift, Forward/Orders: the bulk UPDATE of `forwardStep`, row by row, in the order of the
-- list, under the unique constraint of migrations/1714300000000-InitialWorkflowSchema.ts.
-- Workflow/Removal: `remove` of workflows.service.ts.
-- Workflow/Idempotency: idempotency.service.ts and `withIdempotency` of workflows.controller.ts;
-- JSON is a parameter.
-- Workflow/Lifecycle: the methods of the two services as calls on one database, and histories of
-- calls that run one after the other.
-- Workflow/Tests: a small database and examples.
--
-- Base/Actions: methods that change a store and may throw, with Keeps (what they leave true) and
-- Results (what must hold where they answer).
-- Auth/Store: entities/credential.entity.ts and the keys of Redis; Redis is a record of the commands
-- that the service uses with their documented effect, and Env is what one call gets from outside:
-- the clock, random numbers, bcrypt, the signing of tokens, user-service and org-service.
-- Auth/Lockout, Scope, Sessions, Context, Passwords: auth.service.ts. `login` is login, and likewise
-- refresh, logout, switch_company, save_global_context, exit_company_context,
-- provision_credentials, disable_credential, enable_credential, forgot_password and reset_password;
-- `revokeAllRefreshTokens` is revoke_all, its loop of SCAN and DEL one command of the record.
-- Auth/Calls: these methods one after the other. Auth/Gone: what keeps a refresh token gone.
-- Sessions/Once, Sessions/Answers, Sessions/Scopes, Lockout/Stages, Lockout/Locks,
-- Passwords/Resets: their laws.
-- Auth/Duration: utils/parse-duration.ts, over code points, with the numbers of JavaScript as a
-- parameter; Duration/RoundTrip: the written form.
-- Auth/Tests: a Redis that is the log of its commands, and examples.
-- Org/Store: entities/*.ts, and external-references.guard.ts. Org/Leases: structure-leases.service.ts.
-- Org/Departamentos, Areas, Cargos: departamentos.service.ts, areas.service.ts, cargos.service.ts; a
-- method and the transaction in it are one step, as the lock of the row orders them. The two methods
-- of a position with and without an area are one definition. Org/Reads: the queries change nothing.
-- Org/Calls: the methods one after the other; Org/Tree and its children: the tree they keep;
-- Leases/Kept and Leases/Blocks: the leases they keep, and what those stop.
-- Kafka, with Attempts and Waits: `withDlt` of packages/common/src/kafka/kafka-consumer.util.ts. Its
-- loop runs on fuel, one more than the attempts that are allowed, and more fuel changes nothing.
--
-- UUIDs are numbers compared for equality, times are numbers of milliseconds. Recursion is on lists
-- and on the number of approvals or reviews, and on fuel only for `withDlt`. Not modelled: the
-- wording of messages, the free metadata columns, the validation of DTOs by decorators, the guards
-- and the controller, the listings and the creation of workflows, the calls of the auth service
-- that overlap between two commands of Redis, its controller, and the other services.
pub mod Base
pub mod Workflow
pub mod Auth
pub mod Kafka
pub mod Org
