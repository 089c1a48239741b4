-- ===== src/Lib.antt =====
-- The server of an application for personal legacy plans (NestJS over PostgreSQL, under src). This
-- library models its billing and entitlement core, its end-to-end encryption core, the contents and
-- the files of plans, their sharing with trusted contacts, and the reminders of users, with the
-- database between them.
--
-- Parts, and the files that model them:
-- - Prelude, TableLaws: tests on numbers, results, and a table as the list of its rows with
--   SELECT, UPDATE and DELETE, and the laws of these.
-- - Schema (src/schema.ts, src/lib/types/cls.ts): the rows as records, the enumerated columns as
--   data types, the database Db as the record of the tables, and the row-level security policies
--   as tests on a Session, which is either a user or bypassing.
-- - DbService (src/db/db.service.ts, src/lib/api-cls.service.ts): the request context Cls; `rls`
--   and `bypass_rls` run a body that returns a result and a database, or throws, in which case the
--   database is as before. A service's method returns or throws, beside the database that it
--   leaves.
-- - Entitlements (src/entitlements/entitlements.*.ts): Config and Types are the files of these
--   names; Evaluate, Usage, Service, Status and Info are the methods of EntitlementsService; Guard is
--   checkGuardEntitlements. UsageProofs and QuotaProofs are about quotas, GuardProofs about the
--   guard.
-- - Expiration (src/entitlements/subscription-expiration.service.ts): the hourly job.
-- - Revenuecat (src/revenuecat): Handlers is `dispatch` and its handlers, Reconcile is
--   reconcileFromRc, Webhook is the endpoint with its deduplication, and the pruning job. Rows,
--   Delivery, Idempotence, Tiers and Reports are about these.
-- - DeviceLinking (src/encryption/device-linking.service.ts): the sessions that link a device.
-- - Encryption (src/encryption/encryption.service.ts): Statements are the INSERTs with what the
--   database checks, Keys the user keys, Deks the copies of a plan's DEK, Rotation is rotateDeks,
--   Escrow the escrow with recovery, Listing the lists. KeyProofs, Reuse and Deactivation are about keys,
--   RotationProofs and RotationSuccess about a rotation, Recovery and EscrowProofs about the
--   escrow.
-- - ActivityLog (src/activity-log): the plan's log, which the methods of sharing write.
-- - TrustedContacts (src/trusted-contacts/trusted-contacts.service.ts): `create`; Manage has the
--   other methods that write, Lookup those that read.
-- - Invitations (src/access-invitations): performAccept and performDecline; Tokens is
--   AccessInvitationsService. What a token decodes to is a parameter, `none` where it is refused.
-- - SharedPlans (src/shared-plans): plans as their contacts see them.
-- - PlanAccess (src/plan-access): getPlanAccess, the guard and the permissions of a level.
-- - Files (src/files): how a file is found and shown; Storage is R2Service over a client that is a
--   parameter, Upload, Share and Removal are the methods of these names. Quota and Parts are about
--   uploads, Links about share links, Removed about removals.
-- - Progress (src/progress), with Roundtrip about it, and Plans (src/plans), with Once about it.
-- - Items (src/entries, src/wishes, src/messages, src/common/utils): Kinds is what the three
--   services differ in, Metadata mergeMetadata, Grouping groupBy, Writes and Reads the methods,
--   Services and Routes, Controllers the methods and routes of each. Merging, Batch, Listing and
--   Agreement are about reads; LockedRows, Levels, Editing, Returned, Silent and Quota about writes.
-- - Preferences (src/preferences): Schemas is notification-schemas.ts, Service the reads and writes of
--   a user's row, Eligible the query of the scheduler. Patching is about updates, Window about the
--   query.
-- - PushNotifications (src/push-notifications): Tokens, Sending and Reminders are the methods and the
--   scheduler. Spacing and Unreminded are about these.
-- - Cache (src/cache): getOrSet as a step function over the events of an event loop, with
--   Coalescing and Followers about it.
-- - Sharing is about ActivityLog, TrustedContacts, Invitations, SharedPlans and PlanAccess: Calls
--   has their methods as one type of calls; Writes, Changes, Effects and Answers say what each
--   call does to the tables; Moves is about the diagram of an invitation's status, Closed,
--   Access and Acceptance about who has access, Owner, Creation and Forgery about the owner's methods.
-- - Tests: a database and the examples.
--
-- The webhook and the job write the same subscriptions that the entitlement checks read; the
-- encryption services share plans, trusted contacts, keys and copies with the services of sharing,
-- and the policies of Schema read trusted_contacts.
--
-- How the code is read: identifiers, addresses, keys and ciphertexts are numbers that the program
-- only compares, with the empty text as 0, so that a falsy text is 0 or absent. Times are
-- milliseconds, and `new Date()` and `Date.now()` are the parameter `now`. Random ids and codes,
-- the answer of RevenueCat, the client of the file storage and the decryption of the key
-- management service, the SDK of Expo and the local time of a timezone are parameters. One
-- transaction is one step: interleavings are sequences of transactions, and row locks have
-- nothing to do. The query for reminders tests its conditions in their written order. All
-- definitions are total by structural recursion. The one bound is on the rounds of ON DELETE
-- CASCADE in Files/Removal, one for each row, since a round that deletes nothing is the last.
--
-- Not modelled: e-mails and the notifications of other services (their errors are only logged),
-- log lines, the messages of errors, the columns created_at and updated_at but for files and
-- preferences, the order of other lists by such a column, the validation of request bodies, the
-- names of storage keys, the service of users with the cascade of a deleted user, the controllers
-- other than the webhook's and those of Items, and the wiring of the server (authentication,
-- configuration, health).
pub mod Prelude
pub mod TableLaws
pub mod Schema
pub mod Entitlements
pub mod Errors
pub mod Revenuecat
pub mod Expiration
pub mod Cache
pub mod DeviceLinking
pub mod Encryption
pub mod DbService
pub mod ActivityLog
pub mod TrustedContacts
pub mod PlanAccess
pub mod Invitations
pub mod Items
pub mod SharedPlans
pub mod Sharing
pub mod Files
pub mod Tests
pub mod Progress
pub mod Plans
pub mod Preferences
pub mod PushNotifications
