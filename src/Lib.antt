-- ===== src/Lib.antt =====
-- EdgeSphere, a self-hosted cloud platform of TypeScript services: a gateway in front of services
-- for accounts, storage, content delivery, cache invalidation, analytics, notifications and live
-- updates. This library models the logic of the services and proves what makes it correct.
--
-- Prelude: shared names, lists, maps with text keys (a JavaScript Map), exact fractions.
-- Shared: packages/shared/src/phase4.ts, the helpers computePartCount and getPartRange.
-- Notification: apps/notification-service. Alerts is alerts/alerts.service.ts (check_alerts is
--   checkAlerts, evaluate_condition is evaluateCondition) and alert-rule.ts; Alerts/Rules has
--   createRule, updateRule, deleteRule and the controller's lists; Dispatch is
--   notifications/notifications.service.ts and the Kafka consumer's call of it; Paging is the page
--   arithmetic that the three lists share. checkAlerts calls dispatch, and reads the summary that
--   the analytics service computes.
-- Analytics: apps/analytics-service. Summary is getSummaryStats with the two rates that it takes
--   its figures from; Ingestion is kafka/kafka-consumer.service.ts with ingestEventBatch, a flush
--   split at its await; Search is searchEvents; Queries has the other queries of
--   analytics/analytics.service.ts, with the meaning that the database gives to them, and fills
--   the rows of Summary from the events.
-- Storage: apps/storage-service. Files is files/files.service.ts and buckets/buckets.service.ts,
--   with the invariant of its versions in Files/Counting and Files/Versions. Multipart is
--   multipart/multipart.service.ts, with uploadPart also in two halves around its await. Routes is
--   buckets/buckets.controller.ts and files/files.controller.ts, whose guard is that of Auth/Guards.
--
-- Redis: the commands that the services use, as a record of operations and laws, which the modules
--   below take as a parameter; Redis/Memory is a value of it.
-- Gateway: apps/gateway. RateLimit is rate-limit/rate-limit.service.ts over Redis: Window has the
--   sliding window, Bucket the token bucket. Access is middleware/auth.middleware.ts, which asks the
--   sliding window; Dlq is events/dlq.service.ts; Config is config/platform-config.service.ts and its
--   controller, with the readers of the same settings in the storage and CDN services. Breakers is
--   resilience/circuit-breaker.service.ts with its controller and health/health.controller.ts, with
--   the breakers of opossum as a parameter; Proxy is proxy/proxy.service.ts and proxyAll of its
--   controller, which ask the limiters and the breakers; CdnCache is
--   middleware/cdn-cache.middleware.ts around proxyCdn and proxy/cdn.route.ts; Logging is
--   middleware/logging.middleware.ts with events/event-publisher.service.ts, which fills the dead
--   letter queue.
-- Auth: apps/auth-service. Users is users/users.service.ts and users/user.entity.ts; Sessions is the
--   part of auth/auth.service.ts on accounts, refresh tokens and profiles; ApiKeys its part on API
--   keys. Both keep their values in Redis. Guards is auth/guards, auth/strategies and
--   auth/oauth.controller.ts, with the guard of the storage service. Routes is
--   auth/auth.controller.ts, which puts the guard and the limits of auth/dto/auth.dto.ts before the
--   operations of Sessions and ApiKeys.
-- Live: apps/websocket-gateway, events/events.gateway.ts with kafka/kafka-consumer.service.ts. Its
--   run is any sequence of connections, subscriptions, messages and ticks, each with its time.
-- Dashboard: apps/dashboard. Client is lib/api.ts with store/slices/authSlice.ts, whose requests the
--   gateway answers; Realtime is the three hooks of hooks/, which read what Live sends; Storage is
--   the state and the handlers of app/dashboard/storage/page.tsx.
-- Cdn: apps/cdn-service and apps/cache-service. serve_file is serveFile of cdn/cdn.service.ts with
--   cache/cache.service.ts; Cdn/Invalidation is invalidation/invalidation.service.ts, which scans
--   for the keys that the CDN writes; Cdn/Requests is cdn/cdn.controller.ts, which calls serve_file,
--   with geo/geo.service.ts and cache/cache.controller.ts; Cdn/Optimizer is
--   cdn/image-optimizer.service.ts.
--
-- State is passed explicitly, one record for a service object. What another program answers
-- (databases, MinIO, Kafka, SMTP, HTTP), random ids and times are arguments of the operations.
-- Loops run over lists, so no fuel is needed. Numbers are natural numbers, and non-negative
-- fractions where the services divide; rounding of doubles is left out or a parameter. Logging is
-- left out.
--
-- Not modelled: controllers that pass arguments on, the other pages of the dashboard, module
-- wiring and start-up, metrics, and the edge server written in Go.
pub mod Prelude
pub mod Live
pub mod Notification
pub mod Analytics
pub mod Shared
pub mod Storage
pub mod Redis
pub mod Dashboard
pub mod Gateway
pub mod Auth
pub mod Cdn
