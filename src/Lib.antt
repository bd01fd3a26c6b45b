-- ===== src/Lib.antt =====
-- The TikTok affiliate outreach program: campaigns of messages to creators, planned by the API
-- (apps/api), sent by the outbound worker (apps/worker), over rules that touch no database
-- (packages/domain). PostgreSQL holds every state; a worker restart loses nothing.
--
-- Domain (packages/domain/src/index.ts). Template is renderMessage, with its regular expressions as
-- functions on texts; Segments and Rendering give its meaning on templates. Creators has the types, Filters is matchesFilters, Ranking is
-- rankingValue and the order that buildPreview sorts by, Preview is buildPreview with its parts, and
-- Reconciliation is reconcileUnknownDelivery. The children of Preview prove what the selection is
-- (Marking, Choice), whom it leaves out (Safety) and that the summary adds up (Totals).
--
-- Worker (apps/worker/src). Backoff is the arithmetic of outbound-throttle.ts. Governor is its class
-- OutboundProviderGovernor: a Lane is one limiter row with its permits and events, Acquire and Settle are
-- its methods, and Calls runs histories of them, with the two other writers of the row, publishHeartbeat
-- (main.ts) and OutreachService.resume (apps/api/src/outreach/outreach.service.ts). Its other children
-- prove the limits of a lane (Invariant), the spacing of Send Message (Spacing), when a lane admits a call
-- (Throttling) and that it recovers (Recovery).
--
-- Worker/Dispatch is the path of a message. Rows has the database's tables (packages/db/prisma/
-- schema.prisma) that it reads and writes; Reserve is reserveDispatchSlot (dispatch-safety.ts), the one
-- place where a delivery is claimed; Settle has the transactions that end or return a delivery (main.ts,
-- delivery-policy.ts), Completion is campaign-completion.ts, Send what processSend does with each answer
-- of the provider, and Jobs its guards, processReconciliation and the effect of each transaction. World
-- lets several workers run these as single steps in any order, with crashes, beside the operator's
-- pause, resume and cancel. Claim and Effect prove when a claim happens and what it leaves; Claimable,
-- Takes, Returns and Moves what one step does to one delivery, and Once that no message is sent twice.
--
-- Adapter is RealTikTokOutboundAdapter (packages/tiktok-adapter/src/real-outbound.ts) from the provider's
-- response on: what createOrGetConversation and sendMessage answer, which Worker/Dispatch/Send takes. A
-- number in JSON is its text. Ambiguity proves after which responses the worker sends again.
--
-- Worker/Maintenance is maintenanceSweep (main.ts) as one run that nothing interrupts, with the answers
-- of the queue as arguments; Expiry proves that it leaves no freeze that has ended.
--
-- Outreach (apps/api/src/outreach/outreach.service.ts) works on the same tables. Expiry and Queue hold
-- expireFrozenCampaigns and reconcileOutbox (apps/api/src/shared.ts); Freeze is freeze, Queue is
-- queueFrozen, Send composes them and Results has the errors that they throw; where a call of the queue or
-- a read after the commit throws is an argument. Grounds has what the tables say against a recipient;
-- Verdicts, Accounts (with Tallies) and Queued prove what a freeze and a queueing do to each recipient and to the
-- numbers, and Safely, with Unqueued and Committed, what a send that throws has done. Control is pause, resume and cancel; Stranded
-- shows what a cancellation leaves of a recipient in flight.
--
-- History (apps/api/src/history/history-processor.ts) is HistoryProcessor on the rows of one shop. Rows
-- has the tables, Pages fetchConversationPage, fetchMessagePage and advanceCompletedPage, Errors
-- handleError and Runs processNext, a run that nothing interrupts; the functions of Pages take the job
-- as the worker has read it beside the row. Sound says what holds between runs; Steps, Advance, Failing,
-- Turns and Invariant prove it, Reading that a page is left only when its messages are read, Staging and Imports what the pages leave, Lease and Lost what a run does
-- to its lease and what it may not do without it, Delays how long it waits, Counting what it leaves
-- uncounted. The creator that the identity resolver finds and whether the rebuild of the contact state
-- throws are arguments.
--
-- CreatorDatabase (apps/api/src/creator-database). Buckets has the canonical buckets of packages/domain,
-- Ranges the splits of a range of followers, Expansion the adaptive expansion, Catalog the validation of
-- categories and Rows the base partitions of marketplace-partitions.ts, with what they contain in its
-- children Contents and Offered; Selection proves which
-- selections pass. Scheduler is schedulerSlot and selectSchedulerCandidate of creator-scheduler.ts, Slots
-- the shares of its slots, Fallback what it selects and Overlap followerOverlapWeight.
--
-- How the model reads the code. Instants are milliseconds since the epoch, as natural numbers; a
-- difference that may be negative is written as a sum on the other side of its comparison. Decimal
-- amounts and rates are whole ten-thousandths. A Map or Set that is an input is the function that its
-- get or has computes. A throw is none. An object that two arrays share is known by its position. Sort
-- is a stable insertion sort. Each method of the governor is taken as one atomic step,
-- so a concurrent run of workers is a sequence of calls (in the source acquire and the methods that settle
-- a call lock different keys, and release takes no lock); the clock of a call is an argument, and no theorem
-- assumes that it goes forward unless it says so. The random draw of a backoff is an argument. The
-- Unicode tables behind toLowerCase, toUpperCase and localeCompare are the parameter Locale.
--
-- A table is a list of rows, an ID a number, and an update that finds no row changes nothing. What a
-- worker has read is a snapshot that other workers may make stale. The adapter's answers, the day in a
-- shop's time zone and the configured delays are arguments. A yield is a fraction of two counts and is
-- compared exactly, where the source compares doubles.
--
-- Every function recurs on its list or a number, or is not recursive, so there is no fuel.
--
-- Not modelled: the NestJS controllers, the Next.js web application and the Electron shell (input,
-- output and layout), the Prisma client and PostgreSQL, Redis and BullMQ, TikTok's HTTP API, Google
-- Sheets, and the diagnostics and scripts beside the program; nor, of the API, the identity resolver,
-- the rebuild of the contact state, the read client with its governor, the token service and the
-- synchronisation of the creator database.
pub mod Prelude
pub mod Domain
pub mod Worker
pub mod Outreach
pub mod CreatorDatabase
pub mod Adapter
pub mod History
