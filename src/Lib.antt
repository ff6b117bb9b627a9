-- ===== src/Lib.antt =====
-- A model of the core of the RM console of astra-backend, a Go service with PostgreSQL behind it: who
-- of the Relationship Managers (RMs) holds which client, how the staff log in, how open portal
-- connections are told that something changed, how a user links accounts of other banks through an
-- account aggregator, how transactions are pulled into the spend table, and what the assistant remembers.
--
-- How the parts interact. A login (internal/service/rmauth.go) gives a staff member an access token.
-- An admin moves clients between RMs (internal/service/rm_admin.go); a client who signs up or opts in
-- gets the next RM of the ring (internal/repository/user_repo.go); both go through the assignment
-- repository (internal/repository/rm_repo.go), which asks the ring (internal/domain/rm/ring.go). After
-- a change, the event hub (internal/events/hub.go) tells the connections of the client, of the RM and
-- of the admins. The aggregator's consents (internal/service/idbiaa/service.go) stand beside these, and
-- the blocklist of addresses (internal/middleware/ip_blocklist.go) in front of all.
--
--   Ring.antt        internal/domain/rm/ring.go: Slot, PickNextRM. Ring/Rotation reads its index
--                    arithmetic as one walk round the ring; Ring/Capacity says whom it picks.
--   Store.antt       the calls of internal/repository to PostgreSQL: one statement, a transaction, and
--                    errors as values. Store/Laws and Store/Guards are its rules.
--   Desk.antt        the tables rm_users, users, rm_assignment_history and rm_queue_state.
--   Assignment.antt  internal/repository/rm_repo.go: activeRingTx, currentRMTx, applyAssignmentTx,
--                    AssignNextRM, ManualAssign, Unassign, OffboardRM, with a file for each.
--   Staff.antt       internal/repository/rm_repo.go: Create, GetByEmail, GetByIdentifier, Update.
--   Auth.antt        internal/repository/rm_repo.go: login codes and refresh tokens.
--   Login.antt       internal/service/rmauth.go: SendOTP, VerifyOTP, Refresh, Logout, UpdateProfile, Me.
--                    Login/Keys has the invariant of the tables; Login/Codes, Login/Dispatch and
--                    Login/Replay say how the calls end; Login/Sessions carries the invariant, and
--                    Login/Accepts says when a login succeeds.
--   Admin.antt       internal/service/rm_admin.go: CreateRM, UpdateRM, Assign, Transfer, Remove, Offboard;
--                    and syncRMAssignment of internal/repository/user_repo.go. Admin/Trail serves
--                    sequences of requests.
--   App.antt         internal/repository/user_repo.go: the app's users and their refresh tokens.
--                    App/Session is internal/handler/auth.go, the login of the app; App/Signup, with
--                    App/People, App/Returning and App/Newcomer, and App/Replay say how a sign-up
--                    and a refresh end.
--   Hub.antt         internal/events/hub.go: Subscribe and its cancel function, Publish, UserChanged,
--                    AssignmentChanged. A panic is a value; Hub/Runs shows that none occurs.
--   Consent.antt     internal/repository/idbi_aa_repo.go: the consents and the linked accounts.
--                    Consent/Links says what ReplaceLinkedAccounts leaves.
--   Linking.antt     internal/service/idbiaa/service.go: RequestConsent, Refresh, CompleteRedirect,
--                    HandleConsentNotification. Linking/Owners and Linking/Calls bound what they touch.
--   Fetching.antt    internal/service/idbiaa/service.go: FetchStatements, HandleDataNotification.
--                    Fetching/Stores is about the rows, Fetching/Served about whom they are for.
--   Spend.antt       internal/idbimap/spend.go, with the parsing of idbimap.go and statements.go: spend rows
--                    out of statements. Spend/Table is internal/repository/idbi_repo.go:
--                    UpsertSpendTransactions, LatestSpendSync; Spend/Lookup reads the table as a map.
--   Bank.antt        internal/repository/idbi_repo.go: customer links and mirrored accounts.
--   Sync.antt        internal/service/statementsync/service.go: SyncUser, SyncAllLinkedUsers. Sync/Pulled
--                    and Sync/Runs say what a run stores, Sync/Start where its period starts.
--   Blocklist.antt   internal/middleware/ip_blocklist.go: which addresses are turned away.
--   Memory.antt      internal/repository/chat_memory_repo.go: the assistant's memory of a user. Memory/Words
--                    and Memory/Service are internal/service/memory.go: the texts, and MemoryService.
--                    Memory/Slugs is about keys; Memory/Sound, Memory/Grows and Memory/Stored about the table;
--                    Memory/Rows, Memory/Observed, Memory/Recalled and Memory/Replies about the
--                    service.
--   Prelude.antt     lists, tests and byte strings that the parts share.
--   Tests.antt       runs on small data.
--
-- Conventions. A call takes the tables, the outcomes of its round trips to the database and the random
-- texts to come as one state, so a theorem holds for every way to fail. A commit that fails is taken
-- to have rolled back. Ids are numbers, since they are only compared, and uuid.Nil is 0; times are
-- numbers and `now` is an argument; strings are lists of bytes, and case and space are those of ASCII.
-- int is taken as ℕ: a limit below zero is treated as zero, as the source's tests treat both alike.
-- Requests are taken one at a time, which the lock on rm_queue_state makes of those that turn the ring.
-- Of the columns' lengths those of `reason` and of spend transactions are written out. Loops are recursion on the list that
-- they range over, so no fuel is used; the lap of PickNextRM runs over the number of slots, and the pages of a
-- sync over MaxPages.
--
-- Parameters. What the aggregator and the bank answer, net.SplitHostPort, SHA-256, the signer of access
-- tokens, the HRMS check, the language model, json.Unmarshal, time.Parse, strconv.ParseFloat, the printing of
-- a float64 with %f, pgtype.Numeric.Scan, what a NUMERIC column holds of a number, the order of the database
-- on texts, random texts, the printing of ids and times, and the answer of the owner lookup are arguments. That
-- a login succeeds is said of a signer that answers and a random token whose hash is new; no other
-- theorem asks anything of them.
--
-- Not modelled: HTTP handlers other than those of the login, providers, the reports that compute with
-- floats, ValidateToken and budgets. Amounts of money are carried as the bits of a float64 and, in the table, as what the column holds; they are
-- never computed with.
pub mod Prelude
pub mod Ring
pub mod Spend
pub mod Store
pub mod Sync
pub mod Desk
pub mod App
pub mod Assignment
pub mod Bank
pub mod Staff
pub mod Auth
pub mod Login
pub mod Admin
pub mod Blocklist
pub mod Fetching
pub mod Hub
pub mod Consent
pub mod Linking
pub mod Memory
pub mod Tests
