-- ===== src/Lib.antt =====
-- Corsy is a messenger by invitation: a NestJS backend over a Prisma database, a web client and a
-- mobile client. This library models the services of the backend, where the rules are kept, and the
-- stores and requests of the two clients.
--
-- The parts. Requests reach the services of backend/src, which read and write the tables of
-- backend/prisma/schema.prisma, ask the plan guard for limits, tell the chat gateway what to send
-- to websocket clients, and write an audit log. Contacts arise from requests and from invites;
-- only contacts may write to each other; messages are encrypted at rest.
--
-- Prelude: numbers, texts as lists of UTF-16 code units, lists.
-- Store: the rows of the schema, the state `World` that the services share, the exceptions, and
--   `Exec`, a step over the world that returns or throws. Each query is committed at once, so what
--   was written before an exception stays. Store.Table and Store.Order are the queries of Prisma
--   that the services use, on lists with the newest row first, by what Prisma documents of them.
-- Plans: backend/src/common/plan-limits.ts and plan-guard.service.ts, with `getPlan` and `setPlan`
--   of backend/src/users/users.service.ts. Plans.Expiry compares the two readings of a plan.
-- Connections: backend/src/connections/connections.service.ts, as Requests (requestByUserId,
--   listIncomingRequests, acceptRequest, rejectRequest), Contacts (listMy, removeConnection) and
--   Invites (createInviteLink, invite, getInviteInfo, acceptInvite, listInvites,
--   clearInvitesHistory, revokeInvite). Consistency and Invites.Meter hold the invariants, Reach
--   the runs of all operations, registrations and invites from the waitlist among them.
-- Messages: backend/src/messages/messages.service.ts (getThread, markAsRead, send, edit, remove),
--   Messages.Search: its search, and Messages.Reactions: reactions.service.ts of the same folder
--   (toggleReaction, getReactions).
-- Env: what the services take from outside: the URL parser, the database's text match, the cipher
--   and settings; with backend/src/common/attachment-url.util.ts.
-- Crypto: backend/src/security/encryption.util.ts and message-encryption.util.ts. Random
--   bytes, encodings, AES-GCM and JSON are the fields of `Cipher`; `IsCipher` says what is relied on.
-- Rooms: backend/src/rooms/rooms.service.ts, with Rooms.Chat for its messages; Rooms.Housing holds
--   the invariant and Rooms.Reach the runs.
-- TwoFactor: backend/src/security/two-factor.service.ts. The check of a one-time password is a
--   parameter.
-- Tokens: backend/src/security/token-refresh.service.ts.
-- Auth: backend/src/auth/auth.service.ts (register, issueFullTokens, verifyEmail,
--   resendVerification, login), and Auth.Endpoints: the routes of auth.controller.ts beside it that
--   do more than call a service. Auth.Journey follows an account from its registration to a login.
-- Users: backend/src/users/users.service.ts and backend/src/auth/push.service.ts.
-- Waitlist: backend/src/waitlist/waitlist.service.ts.
-- Payments: backend/src/payments/stripe.service.ts; what the client of Stripe returns is a field of
--   `StripeEnv`.
-- RateLimit: backend/src/auth/rate-limit.util.ts.
-- Gateway: backend/src/chat/chat.gateway.ts: the map of sockets, and Gateway.Calls: the rooms that
--   sockets join and the signals of calls.
-- Admin: backend/src/modules/admin.controller.ts and backend/src/auth/admin.guard.ts.
-- Client: the web client. Notifications, Activity and Session are the stores notifications.ts,
--   chat-activity.ts and auth.ts of frontend/store; Api and Redirect are frontend/lib/api.ts and
--   sanitize-redirect.ts, Calls the candidates of frontend/hooks/use-webrtc.ts, Dashboard the
--   helpers of frontend/app/dashboard/utils.ts.
-- Mobile: the session and requests of the mobile client, mobile/store/auth.ts and
--   mobile/lib/api.ts.
-- Examples: the theorems at concrete inputs.
--
-- How code corresponds to definitions. An operation keeps its name in snake_case; an exception is a
-- `Fault` with the case of its message. `new Date()` is the argument `now`, one reading for a
-- request; an id that the database draws is the argument `new_id`, and where it matters that it is
-- new a hypothesis says so. Ids are numbers, in the order of the strings, 0 for the empty string, so
-- the `trim` of an id is not modelled. SHA-256, random texts and the test of the emoji expression
-- are parameters. Subtraction of times stops at 0, which the comparisons with a window do not see.
-- All loops are structural recursion, on lists or on the number of attempts that the code allows, so
-- there is no fuel. Requests run one after the other; two requests between whose queries others run
-- are not modelled.
--
-- Not modelled: the controllers but for the routes above, validation schemas and module wiring,
-- which pass requests on; the texts of mails, uploads and LiveKit calls; signing of access tokens;
-- the pages of the web client and the screens of the mobile client, which are rendering.
pub mod Prelude
pub mod Store
pub mod Plans
pub mod Crypto
pub mod RateLimit
pub mod Tokens
pub mod Env
pub mod Messages
pub mod Gateway
pub mod Connections
pub mod Rooms
pub mod TwoFactor
pub mod Auth
pub mod Waitlist
pub mod Payments
pub mod Admin
pub mod Users
pub mod Client
pub mod Mobile
pub mod Examples
