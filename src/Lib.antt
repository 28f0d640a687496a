-- ===== src/Lib.antt =====
-- Shannon mirrors GitHub items into Discord threads: GitHub's webhooks are written into a queue, a
-- worker takes them through the services, and each item's thread is kept in step. This library
-- models the parts that decide what is taken, kept, repeated and said.
--
-- The parts, how they interact, and where each is modelled:
--
--   Route, Intake and Events are the endpoint. `receive_github_webhook` of
--   shannon/api/routes/webhooks.py (Route) reads a bounded body and checks its signature (Intake, with
--   shannon/github/webhooks/signature.py), decodes it, asks the router whether the event is acted on
--   (Events, shannon/github/webhooks/router.py and events.py), and calls `enqueue`. Route/Guards,
--   Intake/Reading and Intake/Signing have what it promises.
--   Delivery is the queue and its worker. Delivery/Store has the statements of
--   shannon/db/stores/webhook_events.py as functions from table to table, and Delivery/Worker has
--   `run_once`, `_handle`, `_reschedule` and the backoff of shannon/services/delivery/worker.py.
--   Rows, Invariant, Order, Chosen and Leases are about the store, by whichever workers; Handling,
--   Batches, Calm, Settling, Bounded, Attempts and Backoff are about the worker.
--   Reminders has shannon/db/stores/reminders.py (Store), shannon/services/reminders/book.py (Book)
--   and send.py (Sender); Cap, Claims and Runs are their laws.
--   Domain has shannon/domain: JSON, enums, text, priorities, board columns and moves, and the lines
--   a thread is told, with shannon/services/tracking.py.
--   Github has shannon/github/labels.py (Labels), and in Changes and Single what a change leaves.
--   Sync has shannon/services/sync: Staleness (staleness.py), Policies and Settled (policies.py),
--   Notes (shannon/db/stores/mirrored_notes.py), Once (announcements.py, one run of `say_once` after
--   another), Together (the same with the steps of several workers in any order) and StateLine
--   (state_lines.py).
--   People has the people on an item: Ledger, Matching, Rename and Replace have
--   shannon/db/stores/assignments.py (statements; `_match`, `_rename` and the rest of `replace`),
--   Notifier has `ActorNotifier.notify` of shannon/services/sync/notifications.py, Muted has
--   shannon/db/stores/muted_members.py, Audience has shannon/services/audience.py. Names, Renaming,
--   Parking, Rounds, Ending, Keys and Replacing are about the renaming loop; Rows, Steps and Once about
--   the statements of any workers in any order; Pings and Telling about the notifier; Silence and Rung
--   about who is rung.
--   Threads has which thread an item points at: Pointers (shannon/db/stores/thread_pointers.py) and
--   Binding (shannon/services/sync/threads.py), with Attached, Written and Shown on what they promise.
--   Items has the sync of one item over the two, and over Sync: Holding
--   (shannon/services/sync/one_at_a_time.py) the lock on an item, Recording and Saying
--   (shannon/services/sync/items.py) its database half and its Discord half; Exclusive, Arriving and
--   Locked are their laws.
--   Reviews has shannon/services/reviews.py: Verdicts (`latest_verdicts`), Approval (the round-up of
--   approvals, with `in_its_thread` of shannon/services/locating.py) and Requests (the ledger); Latest,
--   Agreed, Unanimous, Announced and Announced/Heads are their laws.
--   Links has shannon/db/stores/user_links.py (Store), with Pairs on its unique constraints and Resolved
--   on whom it answers with, and in Reach and Rings whom a message names and may ring, over this store, the team
--   links (shannon/db/stores/team_links.py) and the muted members (`reachable` of
--   shannon/services/audience.py).
--   Identity has who a member is on GitHub: OneTime and Proofs (shannon/db/stores/identities.py), Seals
--   and RoundTrip (shannon/services/verification.py, with shannon/services/linking.py over Links); Deeds
--   has what anybody does to the links, and Unique, Vouched, Spent, Sealed, Finished and Linking are the
--   laws.
--   Cooldown has shannon/commands/_cooldowns.py, with Cooldown/Waits on the waits and Cooldown/Turns on
--   the runs.
--   Base has the shared names, Boolean tests, list lemmas and the rows of a table. The Examples modules evaluate the
--   definitions at concrete inputs.
--
-- Correspondence: a table is a record of its rows, in any order, and the next value of its sequence;
-- a method that is one transaction is one function on it, and takes the clock as an argument. Rows
-- that another transaction has locked, which SKIP LOCKED passes over, are a predicate `held`. What
-- a handler, a post to Discord or a write that may fail comes to is a field of a record World (in
-- Sync, Weather), and a theorem that needs one of them to go a certain way has that as a
-- hypothesis. In Threads a ThreadWorld also has what other transactions do to the table between two
-- statements, as functions; in Items a Day, and in Reviews an Answers, has what the outside answers,
-- and in Identity a DiscordDay and a GithubDay. The stop flag is asked at each step. Definitions keep
-- the source's names.
--
-- Bounds and fuel: numbers are natural numbers without a bound, as Python's integers are; times and
-- durations are microseconds. A text that is compared or cut is the list of its code points, with
-- ASCII's case and spaces. The loop of `send_due` takes fuel, and send_due-ends gives how much is
-- enough; the loop of `_rename` takes two rounds for each name, which replace-ends shows to be enough
-- where no login begins with a hyphen (GitHub issues none that does); all other loops are structural. The
-- digits of an id in a parked name take a round for each unit of the id and one more. The key of an
-- item's lock is an integer of 32 bits with a sign.
--
-- Parameters: the HMAC (`sign`; in Identity `mac` and `hex_mac`, its digest in base64url and in
-- hexadecimal), `json.loads` and the hash of a payload. A theorem that needs the alphabet of base64url
-- has that as a hypothesis. Postgres gives an advisory lock to one transaction at a time.
--
-- Not modelled: rendering and the calls of discord.py, GitHub's HTTP and GraphQL clients, reading
-- payloads into snapshots, the slash commands, wiring and process start, migrations, and, so far,
-- the composition of the two halves of an item's sync (`_mirror`), checks and notes, access and
-- registration, the board poller, transcripts and the remaining stores. Waiting between batches
-- (`run_forever`), tasks that are started inside the block of an item, and logging are left out of
-- the parts above. A Content-Length of digits that `int` refuses is left out, a post that raises is taken
-- as one that did not land, and two logins with one account id have rows of their own, where
-- `replace` may hold one row object for both.
pub mod Base
pub mod Domain
pub mod Delivery
pub mod Reminders
pub mod Github
pub mod Sync
pub mod People
pub mod Threads
pub mod Items
pub mod Reviews
pub mod Links
pub mod Identity
pub mod Cooldown
pub mod Intake
pub mod Events
pub mod Route
mod Examples
