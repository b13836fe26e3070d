-- ===== src/Lib.antt =====
-- A verification library for the core of the Intelli Chat API (chat-intelli-api), an omnichannel
-- customer-service back end in TypeScript.
--
-- The parts and how they interact. Conversations move through a state machine, which writes the
-- conversation, an audit log and, in the same transaction, an event to an outbox. A poller leases
-- rows of the outbox and hands them to a queue; a worker takes a job from the queue, runs the
-- automation engine on it and settles the row. The engine finds the automations of the event's
-- trigger, evaluates their conditions on the payload, and runs their actions under a lock on the
-- contact and a rate limit. Beside it, tool calls of AI agents wait for a person to approve them,
-- and a worker runs those that are approved. Grants say which member of an organisation sees which
-- channel, and a router chooses the model for a call of an agent. A chatbot answers a conversation by
-- a flow of nodes until it transfers it or ends; the agent router says whether the AI answers a
-- message, and by which agent; and a watchdog runs the agent again where a message of the contact has
-- stayed without an answer, asking the router first, until it gives up and calls for a person. The
-- documents that agents look things up in are cut into chunks.
--
-- Which file models which code:
--   Base          shared names; Base/Table a database table as its rows and the queries on it,
--                 Base/Order ORDER BY and LIMIT, Base/Exec methods that write and may throw, and
--                 transactions, Base/Texts the methods of texts, Base/Numerals numbers in texts
--   Events        src/modules/automations/automations.types.ts
--   Outbox        src/modules/automations/outbox/outbox.service.ts (enqueue, deriveDedupKey);
--                 Outbox/Poller outbox-poller.service.ts (tick, claimBatch) and
--                 src/modules/automations/workers/automation-event.processor.ts (process)
--   Conversation  the rows of prisma/schema.prisma; Conversation/Fsm
--                 src/modules/messaging/conversations/conversation-fsm.service.ts
--                 (canTransition, transition, assign)
--   Ratings       src/modules/ratings/ratings.service.ts (requestRating, submitByToken)
--   Json          JSON values as JavaScript reads them
--   Conditions    src/modules/automations/engine/conditions-evaluator.ts: operators and fields, and in
--                 Conditions/Evaluate evaluate; Conditions/Validator
--                 src/modules/automations/automations.validator.ts (validateConditions)
--   Redis         src/modules/automations/redis/automation-redis.service.ts
--   Automation    the rows, parseActions and, in Automation/Loop, the loop of runActions of
--                 src/modules/automations/engine/automation-executor.service.ts, with
--                 src/modules/automations/actions/action.types.ts
--   Executor      the counters and pauses of automation-executor.service.ts, and in Executor/Engine
--                 execute
--   Pending       src/modules/ai-agents/confirmations: pending-action.service.ts and
--                 pending-action.storage.ts; Pending/Executor pending-action-executor.processor.ts
--   Access        src/modules/iam/channel-access/channel-access.service.ts
--   Models        src/modules/ai-agents/runner/model-router.service.ts, with
--                 src/modules/ai-agents/llm/llm.constants.ts
--   Actions       src/modules/automations/actions: action.types.ts; Actions/Tags, Actions/Assignment,
--                 Actions/Pipelines and Actions/Messages handlers/add-tag.handler.ts,
--                 remove-tag.handler.ts, assign-user.handler.ts, add-to-pipeline.handler.ts,
--                 move-pipeline-stage.handler.ts and send-message.handler.ts (execute)
--   Chatbot       src/modules/chatbot: the rows and chatbot-flows/chatbot-flows.repository.ts
--                 (findById, findActiveFlowForChannel); Chatbot/Flows its edits, and those of
--                 chatbot-flows.service.ts; Chatbot/Words and Chatbot/Nodes
--                 engine/node-executors/*.ts; Chatbot/Session session/chatbot-session.service.ts;
--                 Chatbot/Engine engine/chatbot-engine.service.ts (processMessage);
--                 Chatbot/Worker engine/chatbot.processor.ts (process)
--   Hours         isWithinBusinessHours and parseHourToMinutes of
--                 src/modules/ai-agents/router/agent-router.service.ts, which
--                 src/modules/routing/watchdog/watchdog-config.service.ts repeats
--   Router        agent-router.service.ts (selectAgent, shouldHandle)
--   Watchdog      src/modules/routing/watchdog: watchdog.service.ts (scheduleCheck, cancelCheck) and
--                 watchdog-config.service.ts (resolve); Watchdog/Check watchdog-timer.processor.ts
--                 (process); Watchdog/Cron watchdog-cron.service.ts (scanAndEnqueue)
--   Chunker       src/modules/ai-agents/rag/chunker.ts (chunkText, estimateTokens)
--
-- How the code is modelled. A table is the list of its rows in the order of their insertion, a query
-- a function on the list, and a method a function from the tables to its result and the tables
-- behind it; what throws keeps what was written before, unless a transaction takes it back, and so
-- does a taken key within a transaction, which PostgreSQL has aborted then. A text is its code points;
-- the chunker and the limit on the length of a message count UTF-16 code units. The queue keeps one
-- job of an id. The clock, random ids and tokens, and the errors of statements and of the queue are inputs. A time is
-- a number of milliseconds. Calls follow one another: two calls that run at once are modelled only
-- where the code expects them, as rows that are locked for the poller. toLowerCase is a parameter,
-- since its table is Unicode's, and so are the order of the numbers that parseFloat reads, the action
-- handlers of the engine (Actions models each of them on the tables that it uses), the HTTP tool
-- executor and, for the watchdog, the run of an agent, which may return or throw whatever they like.
-- Of the data of a chatbot's node the options of a menu and the value of a condition may be missing;
-- what is there has the type that its executor casts it to, and no time passes within a call of its
-- engine. What Intl says of the time in an organisation's zone is an input.
--
-- Bounds and fuel. Every loop runs over a list or a text and is a structural recursion, but for two:
-- the digits of a number take fuel, the number itself, which has no more digits than that; and the
-- loop of the chatbot's engine counts its rounds as the code does and takes fuel for one round more
-- than the most that the code allows, 21, which is proved to be enough. Natural numbers stand for the
-- counters and times of the code, which are not negative.
--
-- Not modelled: the timer of the poller and its database errors, those of the confirmations, the durations of runs, the
-- broadcast to open screens, logging, Redis when it does not answer, validateActions, and the other
-- modules (channels, messages, agents and their runner, departments, sales recovery, users).
pub mod Base
pub mod Events
pub mod Outbox
pub mod Conversation
pub mod Ratings
pub mod Json
pub mod Conditions
pub mod Redis
pub mod Automation
pub mod Executor
pub mod Pending
pub mod Access
pub mod Models
pub mod Actions
pub mod Chatbot
pub mod Hours
pub mod Router
pub mod Watchdog
pub mod Chunker
