-- ===== src/Lib.antt =====
-- The stores and shared rules of the aggregator platform: the campaign jobs that act on
-- participants, the aggregators, their organisations and the invites that bring coordinators in,
-- the ledger of consents, the portal's sessions, the export of contacts, and the rules that all
-- processes share for phones, contacts and conditional form fields.
--
-- How the parts interact. A registration route creates an aggregator or an organisation and
-- records the consent; both rows carry a contact id that is computed from the normalised email and
-- phone. An admin's approval is a compare-and-swap on the pending row. An owner's invite is
-- claimed when the coordinator registers and given back when the registration fails. A campaign
-- route creates a job with its items; the worker runs it, perhaps several times, marks the items
-- one by one and rolls the job's status up from them.
--
-- The files, by the code they model:
--   Prelude: JavaScript maps, lists, decimal texts, JSON; unique indices and maps with unique live
--     keys. Prelude/Result is the type of packages/shared-primitives/src/result/index.ts.
--   Primitives: packages/shared-primitives/src. Phone is normalisePhone, Contact is normaliseEmail
--     and contactId, Outcome the combinators of results, Aggregator the enums.
--   CampaignJobs: apps/api/src/services/campaign-job-store. Types and Status are interface.ts (with
--     tally of memory.ts); Store/Create, Store/Update and Store/Read are the methods of memory.ts:
--     createJob, then markItem to rollUpStatus, then the reads. Store/Steps is any interleaving of
--     the calls that write.
--   Aggregators: apps/api/src/services/aggregator-store. Methods has the methods of memory.ts,
--     Listing its list; Indices is any interleaving of the calls that write.
--   Orgs: apps/api/src/services/aggregator-org-store, all methods of memory.ts.
--   Invites: apps/api/src/services/registration-invites-store, all methods of memory.ts.
--   Consent: packages/consent-ledger, the in-memory ledger.
--   Sessions: apps/web/src/lib/session, the in-memory store.
--   ShowIf: apps/web/src/lib/show-if.ts.
--   ProfileCsv: packages/profile-csv/src/index.ts, the contact export, and the profile export in
--     ProfileCsv/Profiles. ProfileCsv/Reader and ProfileCsv/Lines hold a reader of RFC 4180 text.
--   CampaignTemplate: packages/campaign-template/src/index.ts; CampaignTemplate/Mail is content.ts
--     and render.ts.
--   ConfigLoader: packages/config-loader/src/interpolate.ts.
--   RateLimiter: consume of apps/api/src/services/rate-limiter/index.ts, over the commands of Redis
--     that it calls.
--   CampaignWorker: apps/worker/src/services. Client is campaign-job-client.ts, each query as an
--     update or a selection of the rows of two tables. Run and Channels are runCampaignJob of
--     campaign-process/index.ts, Export, Messages and Chunks its export channel; Voice (with
--     VoiceContent) and Email (with the sends in Recipients) are voice.ts and email.ts. Effects is
--     what asynchronous code does: an action reads and writes the tables, calls the collaborators,
--     and returns or throws. The collaborators are functions over the state of an arbitrary world,
--     so they may answer, refuse or throw as they like, at each call anew; a trace records the
--     calls.
-- The child modules of each part hold what is proved of it, and its Tests module the theorems at
-- concrete inputs.
--
-- How code becomes definitions. A class is a record of its fields, and a method a function from
-- the arguments and the record to the answer and the new record. A `Map` is a list of entries in
-- the order of insertion. A `Date` is a number of milliseconds. `new Date()`, `Date.now()` and
-- `randomUUID()` are arguments of the call, which reads the clock once; that an id is new is a
-- hypothesis where it matters. An error is its code, with its message where callers read it. Where
-- a promise rejects the model says so. SHA-256 and `localeCompare` are parameters, and in Orgs and Primitives the tables behind `trim` and
-- `toLowerCase`; the white space of `trim` is written out for the worker and its templates.
--
-- In the worker every access of the tables, a read or a write, may be rejected, and a write that
-- is rejected may have been committed or not; a run that stops between two accesses is not
-- modelled. The recipients of a campaign mail are served in lanes, EMAIL_SEND_CONCURRENCY of them
-- at most. The world says which lane runs next up to its following await, and once a lane has
-- thrown, when its error is delivered to the caller; what the other lanes do after that is left
-- out. A reason is cut by UTF-16 units, as in the source; half of a surrogate pair becomes U+FFFD,
-- which is what UTF-8 makes of it on the way to the tables.
--
-- Fuel. The loop of resolveVisibleSchema runs on two more rounds than there are properties, which
-- is enough, since each round but the last hides one more field at least. The loop of chunkArray
-- has a round for each item, which is enough for any size but zero, which the configuration
-- excludes. The scan of a template, and of a text for references, has a round for each character,
-- of which each round takes one or more. The lanes of the mails have three rounds for each
-- recipient, and each runs a stage of one of them (Recipients/Enough). The decimal text of a
-- number has fuel above the number. All other loops are structural recursion.
--
-- Not modelled: the Postgres stores (their behaviour is in the database), the HTTP routes, the
-- clients of Keycloak, Redis, BullMQ, the mail, voice and signalstack services, the workbook
-- templates, the jobs of the bulk upload and the user interface. The zod schemas are left out: a
-- model's types stand for input that has passed them.
mod Prelude
pub mod CampaignJobs
pub mod CampaignTemplate
pub mod CampaignWorker
pub mod ConfigLoader
pub mod Consent
pub mod Invites
pub mod Aggregators
pub mod Orgs
pub mod Primitives
pub mod RateLimiter
pub mod Sessions
pub mod ShowIf
pub mod ProfileCsv
