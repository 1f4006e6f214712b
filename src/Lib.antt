-- ===== src/Lib.antt =====
-- Motogram, a social network for motorcycle riders: the API services that keep its state, and what
-- makes them correct.
--
-- The parts, with the file of the repository that each module follows:
--   * Social: apps/api/src/modules/{likes,comments,posts,follows,blocks}. Likes.like and unlike are
--     LikesService.like and unlike; Comments, Posts, Follows and Blocks are named likewise, with the
--     service's name added where a word would be ambiguous (create_post, remove_comment). Blocks call
--     the unfollow of Follows, posts ask Blocks for the peers of the viewer.
--   * Gatherings: apps/api/src/modules/{community,event}. An event of a community asks for the
--     membership of its organizer.
--   * Party: apps/api/src/modules/party. Election is leader-election.service.ts; Members, Leaving,
--     Invites, Signals and Zombies are the operations of party.service.ts, which keep PostgreSQL rows
--     and Redis keys side by side. A leader that leaves calls the election; the sweep calls leaveParty.
--   * Accounts: apps/api/src/modules/{auth,account}. Login, Passwords, Emails, Otps and Oauth are the
--     operations of auth.service.ts under their names (refresh is refresh_tokens), Tokens is
--     token.service.ts over the refresh keys of redis.service.ts, Deletion is account.service.ts with the
--     calls of deletion.queue.ts. A login emits an event whose listener ends a request for a deletion.
--     Deletion/Phases states the life of an account as steps between three phases.
--   * Emergencies: apps/api/src/modules/emergency. Alerts is createAlert, Answers the other operations of
--     emergency.service.ts, Contacts is emergency-contacts.service.ts.
--   * Experiments: Flags is apps/api/src/modules/feature-flag, Variants apps/api/src/modules/ab-test.
--   * Gamification: apps/api/src/modules/gamification. Quests is triggerQuest and its listener, Levels
--     levelFor, Badges what a user sees.
--   * Prelude: Table is a database table as a client sees it, Action a service call (state, result or
--     thrown error, `$transaction` with its rollback), History a sequence of calls, Pages the cut of a
--     search into pages, Assoc a concrete table for the tests.
--
-- Prisma and Redis are not part of the repository: a table is a parameter, a record of the calls and
-- of the laws that their documentation states (what findUnique returns after a write, which rows
-- findMany lists, what count counts). Prelude/Assoc gives tables that satisfy the laws.
--
-- Identifiers and times are natural numbers, drawn by the caller; identifiers are compared for
-- equality, and in the order of a search and of a tied election. Counters are integers without bound
-- (the database's are 32 bits wide). Calls run one after the other: two calls that interleave between
-- their reads and writes are not modelled, nor is the expiry of Redis keys. No fuel is needed: every
-- loop of the code runs over a list.
--
-- Random values (identifiers, salts, codes, bytes of tokens) and the answers of the location service are
-- arguments; hashing, signing, the comparison of texts and the first day of a month are parameters
-- (Accounts/Schema.Primitives states what the code relies on). Times are milliseconds. Whether a call of
-- the deletion queue or of the message queue fails is an argument.
--
-- Not modelled: validation by the request schemas (its bounds are hypotheses where they matter), HTTP
-- and socket delivery, geographic queries, feeds and profile lists, the cron of the retention worker and
-- the retries of queues, and the services that no file here names (messaging, stories, media, reports,
-- notifications, push, motorcycles, users, location, administration).
pub mod Accounts
pub mod Emergencies
pub mod Experiments
pub mod Gamification
pub mod Gatherings
pub mod Party
pub mod Prelude
pub mod Social
