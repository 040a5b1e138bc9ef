-- ===== src/Lib.antt =====
-- A verification library for shado-cloud, a self-hosted file cloud (a NestJS back end in TypeScript).
-- Paths below are from the repository's root.
--
-- The parts of the program that are modelled, and the files that model them:
--
-- * The deployment pipeline, src/admin/deployment.service.ts: Deploy/. A deployment is a value that
--   the run carries (`Run`: the service's state and the deployment); the entries deployment:current
--   and deployment:last in Redis are copies of it, written where the source calls `saveState`.
--   Deploy/State has the types, Deploy/Store the entries, the event stream and `cancelDeployment`,
--   Deploy/Attempts `runStep` and the retries of a command, Deploy/Propagate `runPropagateStep`,
--   Deploy/Steps `runSteps` and `failDeployment`, Deploy/Commands `startDeployment`, `retryStep`,
--   `startPropagation`, `getFollowingSteps`, `enqueue` and `processQueue`, Deploy/Jobs `onModuleInit`,
--   `runDeployment` and the hand-off to the queue, Deploy/Defaults the insertion of missing steps by
--   `reconcileDefaultSteps`. What processes, builds and replicas answer, and when a cancel request
--   arrives, comes with each step as its script, so every theorem holds for all of these; a cancel
--   request can arrive while a command runs, while the run waits for the next attempt, and during a
--   build or a propagation.
-- * The run of a replica, src/admin/replica-propagation.service.ts: Replica/Run, with the types of the
--   link (src/replication/replica-link.constants.ts) in Replica/Types and the summaries in
--   Replica/Summary. One replica is a state with its timer; frames, each with its sender and its run,
--   reconnections and timers are signals, taken in any order. Frames of other runs and other senders
--   are passed over, as the subscriptions of `propagate` do.
-- * Paths and ownership, `absolutePath` and `isOwner` of src/files/files.service.ts: Paths. An absolute
--   path in normal form is the list of its names; `path.join`, `path.resolve` and `path.relative` are
--   node's on POSIX. `isOwner` works on the text of the relative path, and so does the model.
-- * Temporary URLs, src/temp-url/tempUrl.service.ts and src/models/tempUrl.ts: TempUrl, on top of
--   Paths. The state is the table of shares and the disk, as it is seen through links, with the place
--   where the links of a path lead: a file that tiered storage has demoted is a link to a cold drive,
--   and `save` writes through it. `asStream` is a check and a save, so that requests may overlap
--   (TempUrl/Overlaps). TempUrl/Manage has `generate` and `delete`.
-- * Byte ranges, src/files/files.controller.ts: Http/ByteRange, `parseByteRange` and the response of
--   `getFile`, for a file as a list of bytes; a stream that breaks while it is sent is left out.
-- * Signed calls between services, src/auth/service-auth.util.ts and src/auth/service-key.guard.ts:
--   Auth. Auth/Hex and Auth/Decimal have the encodings, Auth/Json the canonical JSON of
--   `stableStringify` with the order of its keys in Auth/Json/Order, Auth/Payload the envelope of a
--   message. The digests are a parameter (`Crypto`), of which `Lawful` says what node documents.
-- * Tiered storage, src/file-system/tiered-storage.service.ts: Storage, with `demote` and `promote`
--   in Storage, the choice of a drive and the test for a cold path in Storage/Drives, the walks in
--   Storage/Walk and `evacuateDrive` in Storage/Evacuate. Storage/FileSystem has the calls of
--   src/file-system/file-system.service.ts on entries with links; where node refuses a call because of
--   a missing or ill-typed folder above a path, the call of the model goes through. An operation gives the states that
--   the disk goes through (Storage/Traces), so that a theorem on all states covers a crash. The sweep,
--   the removal of blobs, the promotion on access and the counts are in Storage/Sweep.
-- * The registry of connected replicas, src/replication/replica-link.registry.ts: Replica/Registry.
-- * Files, src/files/files.service.ts: Files, the names that are made of a client's names and the
--   upload of a large file in parts, with sets and their sorting in Files/Sets; Files/Operations,
--   `new`, `upload`, `delete` and `rename` on the disk of tiered storage.
-- * Pages of a listing, src/directories/directories.service.ts and the loop of `listDir` in
--   src/temp-url/tempUrl.service.ts: Directories.
-- * Checks of a request, src/csrf.middleware.ts, src/allowed-origins.ts,
--   src/replication/client-ip.util.ts, src/replication/trusted-ip.middleware.ts and
--   src/real-ip-throttler.guard.ts: Filters, with the list of origins in Filters/Origins and the
--   addresses in Filters/Addresses. The regular expressions are tests on texts.
--
-- The pipeline uses the run of a replica through its final state, which decides a propagation step;
-- shares use paths and ownership for every access to the disk, and so does the start of an upload;
-- the origin check reads headers as the signed calls do.
--
-- Common holds what the parts share: tests on numbers and texts, lists measured by native numbers,
-- results, texts as lists of UTF-16 code units, and objects as association lists.
--
-- Numbers are natural numbers; in the source they are doubles, which are exact below 2 ^ 53. There is
-- one loop on a bound, the attempts of a command: at most three, the constant of the source. Some
-- functions run on fuel: the digits of a number n on n, since n / 10 is below n; the walks of folders,
-- and the removal and the counting of cold files, on one more than the number of entries, which is
-- more than any folder is deep; the loop over the pages on one more than the number of entries, with
-- a theorem that this is enough. All other functions recurse on their data. The time stamps of the
-- pipeline are left out, since no branch reads one; the expiry of
-- a share is compared with a clock that is part of the state.
--
-- Not modelled: the database beyond the tables that are named, the building of images, the texts of
-- emails, the events that only repeat a propagation's progress, and the other services of the program
-- (replication, sessions, metrics, flags, the replicas' own deployment). Of tiered storage the
-- overview is left, of files and directories all that is not named above.
-- The demotion and the promotion of different files are not interleaved, nor are uploads.
pub mod Auth
pub mod Common
pub mod Deploy
pub mod Directories
pub mod Files
pub mod Filters
pub mod Http
pub mod Paths
pub mod Replica
pub mod Storage
pub mod TempUrl
