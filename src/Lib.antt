-- ===== src/Lib.antt =====
-- estate-server: the back end of a service for buildings and their tenants. Owners register
-- buildings and units and hand out invite codes, a tenant who redeems one gets a lease and is a
-- member of the building, members write posts, comments and likes on its board, and what happens
-- goes out as domain events. The development models the modules auth, outbox, events, property,
-- board, notification, chat and audit under src/, the collectors and the interceptor of
-- src/metrics, the scripts of src/redis, the rate limit, the errors, the traces and the shutdown
-- of src/common, and the polling loop of src/workers.
--
-- How the parts interact: a request passes the rate limit, and reaches a use case of auth,
-- property or board. The use case reads and writes the tables through the repositories, in a
-- transaction where it also inserts an event into the table OutboxEvent. The relay of the outbox
-- fetches these rows in ticks and hands them to Kafka, from where the notifications and the
-- audit log are made. A chat message is relayed, cached and published at once, and written down
-- by a worker that consumes the event; the instances of the gateway pass it on to the sockets of
-- its room. The board asks the tables of property who is a member, and keeps derived values (like
-- counters, cached posts) in Redis.
--
-- The files, and the code that each models:
--
-- Base: shared helpers. Base/Table is a database table as a list of rows with Prisma's queries,
-- Base/Monad a use case as a function from a state to a result and a state (an exception is a
-- value; a transaction restores the tables on an exception), Base/Tests and Base/Lists are
-- Boolean tests and lists over the native numbers, Base/Int signed numbers.
--
-- Auth: Auth/State has the entity of src/auth/domain/refresh-token.entity.ts and the rows,
-- Auth/Tokens is src/auth/infrastructure/prisma-refresh-token.repository.ts, Auth/User and
-- Auth/Users are the user entity and prisma-user.repository.ts, Auth/Session has
-- issue-session.service.ts and the use cases refresh-tokens (`refresh`, `refresh_found`, and
-- `rotate` for its transaction), logout, logout-all, revoke-session, list-sessions and
-- change-password. Below it, Invariant has the invariant of the token table, Issuing the issue
-- of a session, Rotation the transaction of a refresh, Refresh the whole request, Replay the
-- second use of a token, Revocation the end of sessions, Race the interleaving of concurrent
-- requests. Auth/Access has the use cases sign-up, login, kakao-login, complete-kakao-signup,
-- get-profile and update-profile, Access/Login the properties of the login, Access/Invariant
-- that all of them keep the token table valid.
--
-- Http: Http/Bearer is src/auth/infrastructure/jwt-token.service.ts and
-- onboarding-token.service.ts with the guards of src/auth/interface. Http/Server is the way of a
-- request (`serve`): the rate limit, the guard of the token and that of the roles, the
-- validation and the handler, and the exception filter, over a record `Routes` that each
-- controller fills in: Http/AuthApi is src/auth/interface/auth.controller.ts with its DTOs (and
-- Http/Queries the use cases for a user whose token has no id), Http/PropertyApi the controllers
-- of src/property/interface, Http/BoardApi board.controller.ts, Http/NotificationApi
-- notification.controller.ts and Http/ChatApi chat.controller.ts. Guarding, Owners, Outsiders,
-- SignedIn, Onboarding, Inbox, Conversations and Reachable have the properties of requests and of
-- sequences of them.
--
-- Outbox: Outbox/Backoff is src/outbox/domain/backoff.ts, Outbox/Store is prisma-outbox-store.ts
-- and the tick of relay-outbox.use-case.ts, Tick, Quarantine and Draining have its properties.
-- Events is src/events/event-type.enum.ts and domain-event.ts, Events/Publisher
-- kafka-event.publisher.ts, Events/Topics kafka-topic-initializer.ts with kafka-topics.config.ts,
-- Events/Tracing src/common/tracing/trace-propagation.ts; Creation is about the topics.
--
-- Pipeline: the way of an event from the outbox over the relay and the broker to the workers of
-- src/audit and src/notification/interface/notification-worker.controller.ts. Published and
-- Order are about what the relay emits, Audited, Informed and Told about what the workers have
-- made of it.
--
-- RateLimit: RateLimit/Window is src/common/rate-limit (the guard, the store with its script,
-- the constants), Window/Bound has its properties.
--
-- Property: Property/Entities is src/property/domain, Property/Store src/property/infrastructure
-- and src/board/infrastructure/prisma-membership.checker.ts, Property/Cases
-- src/property/application; Invites and Leases have their properties.
--
-- Board: Board/Store is src/board/infrastructure, with src/board/domain in Store/Entities,
-- Board/Posts, Board/Likes and Board/Listing are src/board/application with the queries over
-- several posts; Counting, Effects, Drift, LikeCycle, Authors, Batch and Lists have their
-- properties.
--
-- Notification: Notification/Store is src/notification/domain and the repository and counters of
-- src/notification/infrastructure, Recipients is prisma-recipient-resolver.ts, Cases the use
-- cases handle-event, mark-one-read, mark-all-read, get-unread-count and list-notifications,
-- with the limit of notification.controller.ts; Fanout, Actor, Reading, Unread and Totals have
-- their properties.
--
-- Chat: Chat/Store is src/chat/domain and src/chat/infrastructure (the repositories and
-- redis-message-cache.ts), Chat/Cases src/chat/application, the limit of a history request of
-- src/chat/interface/chat.controller.ts, and chat-persistence.controller.ts, Chat/Gateway the
-- handlers of a socket of chat.gateway.ts, Chat/Hub all sockets of all instances and the channel
-- of redis-message-relay.ts between them; Recent, Access, Rooms and Delivery have the properties
-- of the cache, of who sends and reads, of the rooms, and of the table of messages, Growth,
-- Privacy and Audience those of the sockets.
--
-- Audit: Audit/Log is src/audit, Audit/Deliveries what comes of repeated deliveries. Base/Once
-- is what Audit and Chat share: a table that keeps the first row with a key.
--
-- Kakao: Kakao/Client is src/auth/infrastructure/kakao-oauth.client.ts with kakao-api.error.ts
-- and the filter of kakao-resilience.ts, Kakao/Config the settings of kakao-resilience.ts;
-- Failures has the login whose call of Kakao fails, Settings that the built-in settings pass
-- their check.
--
-- Errors: Errors is src/common/errors with the statuses of the files *.errors.ts and
-- src/common/sentry/should-capture-4xx.ts; Answers has what Sentry is told, Scrub is
-- sentry-scrub.ts.
--
-- Metrics: Metrics/Lag is src/metrics/infrastructure/kafka-lag.collector.ts, Metrics/Depth
-- outbox-depth.collector.ts and Metrics/Requests http-metrics.interceptor.ts, of which Routes has
-- the properties.
--
-- Redis: Redis/Scripts is `runScript` of src/redis/redis.service.ts, Redis/Atomic its property.
--
-- Workers: Workers/Shutdown is src/common/shutdown/graceful-shutdown.ts, Workers/HttpDrain
-- http-drain.ts with the time limits, and Workers/RelayLoop src/workers/relay-loop.ts, all as
-- state machines whose events are the calls, the timers and the promises that settle; Endings has
-- what the events say of a shutdown by themselves, Exits and Stopping have the properties.
--
-- Conventions: a string that is only compared is a number (Key), the empty string is `no_key`;
-- times are milliseconds as natural numbers and are arguments, one for each reading of the
-- clock. A fresh id or UUID is the next number of a counter in the state, a random token or code
-- the next value of a parameter. Each use case is one function on a state; concurrent requests
-- are sequences of such functions where a theorem speaks of them. There is no fuel: every loop
-- of the code runs over a list and is structural recursion here. Doubles occur in the backoff
-- alone, and the model is exact there, as its file explains.
--
-- Parameters: hashing, signing, bcrypt, the random values, the policies of cockatiel and the
-- answers of Kakao, the JSON web tokens, the validation of an email address, what the broker does
-- with an event and which deliveries it makes, what the server of Redis makes of a script, and
-- what Sentry answers for a trace.
--
-- Not modelled: the construction of Kakao's resilience policies, which are a library's; the
-- gateway of the notifications, which pushes a copy of a new row to its recipient's sockets; what
-- the handlers of the board and of the chat do for a token without a user id, which is a
-- parameter; the modules of the framework, the entry points of the processes and the
-- configuration; the clients of Kafka, Redis and Prisma but for the calls above; logs and the
-- transport of Sentry; the scripts of the load tests. They are I/O and wiring, or stand apart from
-- what is modelled. Of the errors of Redis those
-- are modelled that follow a write of the board or meet a like or a chat message; left out are
-- those of the rate limit, where the guard throws and the request ends with 500 before its handler,
-- of a cache that is read or filled, and of the counters of the notifications. A limit in a query
-- is an integer: a fraction, which Redis and Prisma refuse, is left out, as is a foreign key that
-- is violated when a lease is written.
pub mod Base
pub mod Auth
pub mod Outbox
pub mod RateLimit
pub mod Events
pub mod Property
pub mod Board
pub mod Notification
pub mod Chat
pub mod Workers
pub mod Audit
pub mod Kakao
pub mod Errors
pub mod Http
pub mod Metrics
pub mod Pipeline
pub mod Redis
