-- ===== src/Lib.antt =====
-- flight-circle-search: a service that looks for flights between two circles on the map. A client
-- submits two centres with radii and a range of days. The job engine (internal/jobengine) resolves
-- the airports in each circle (internal/geo), forms the pairs that can be flown directly or through
-- one hub (internal/routes), stores a job with one row for each pair and day in PostgreSQL, and queues
-- a search for each row with River (internal/api/river.go). Workers (internal/worker) take the
-- searches from the queue, ask a fare provider (internal/fareprovider) behind a cache
-- (internal/cache), write the row, and finish the job when no row is open. Clients reach the job
-- engine through the endpoints of internal/api, behind a login by links that are sent by mail
-- (internal/http, internal/auth).
--
-- Files and what they model:
-- - Base: lists, options, results, bytes, maps and int64 words that the components share.
-- - Floats: float64 and package math, a parameter without laws.
-- - Geo: internal/geo/resolve.go. Geo/Resolved compares ResolveAirports with a filter; Geo/Circle
--   states what a search promises.
-- - Routes: internal/routes/routes.go. Routes/Pairs is about GenerateAllPairs, Routes/Hubs about the
--   filter with hubs. A Go map is a list of entries.
-- - Dates: package time in the layout 2006-01-02, the date pattern, and expandDateRange of
--   internal/jobengine/service.go. The loop over the days runs on fuel: the difference of two
--   numbers that grow with every day, plus two, is enough (Dates/Range).
-- - Jobs: internal/jobengine. Jobs/Validate is validateRequest, Jobs/Store the two tables, the queue,
--   the clock and the failures to come, Jobs/Repository every method of PostgresRepository,
--   Jobs/Service Submit and GenerateTuples. Jobs/Tables, Jobs/Keeps and Jobs/Progress hold the lemmas
--   on tables and actions and the end of a job; Jobs/Tuples and Jobs/Submit the submission,
--   with Jobs/Submit/Described on what it stores; Jobs/Deletion is about claims and deletions. Jobs/Sound is what the tables hold at every moment, with a
--   module for each kind of statement; Jobs/Methods is the interface of the writing methods, by which
--   what each of them keeps is kept by their callers.
-- - Fares: internal/fareprovider/provider.go; Fares/Travelpayouts: travelpayouts.go. What is called
--   (HTTP, JSON, the parser of a time, the sort) is the record Calls. Fares/Served is about the
--   cache, Fares/Stored puts the provider and any cache together, Fares/Fallback is about the search
--   of a month. Fares/Duffel: the search of duffel.go, with
--   Fares/Durations on its durations, Fares/Offers on what the search returns and Fares/Offered on
--   the fields of it. The comparators of sort.Slice are modelled; sort.Slice is a parameter.
-- - Cache: internal/cache/memory.go and keys.go. Cache/Remote is redis.go and the interface of
--   cache.go, Cache/Contract what both caches promise. Time does not
--   pass for the cache in memory, whose clock only its tests move.
-- - Config: internal/config/config.go; Config/Hubs is about parseHubs. Base/Space is the white space
--   of Unicode.
-- - Migrations: internal/db/db.go. Migrations/Replay reads off what a transaction that succeeded did,
--   Migrations/History and Migrations/Safe hold the invariant, Migrations/Again the
--   repetition, Migrations/Recorded which scripts are recorded.
-- - Auth: internal/auth. Auth/Redis is the interface of Redis, Auth/Tokens is tokens.go with
--   Auth/Tokens/Single on what a token is good for and Auth/Tokens/Used on one that was used;
--   Auth/Sessions is sessions.go with
--   Auth/Sessions/Lifetime on how long a session is found.
-- - Worker: internal/worker/fareworker.go. Worker/Turns steps the queue: any queued search may take
--   its turn, with any answer, any failures and any time; Worker/Outcomes is about one turn,
--   Worker/Stuck about jobs that never end, Worker/Kept about what handlers and sweeps keep,
--   Worker/Runs about all callers of the methods side by side, Worker/Advance about how a job goes
--   on. Worker/Retention: internal/worker/retention.go.
--   Worker/Limiter: internal/worker/ratelimiter.go, with Worker/InFlight on the calls in flight.
-- - Http: internal/http. A request, the open response, and errors.go; Http/Middleware is
--   middleware.go, Http/Handlers auth_handlers.go. Http/Guard is about RequireAuth, Http/Links about
--   the links that are sent, Http/Login about a login from its link to its end, Http/Open,
--   Http/Silent and Http/Headers about what an answer leaves alone.
-- - Api: internal/api/handlers.go and health.go. Api/Views and Api/Statuses are about their
--   answers; Api/Server is
--   the routes of server.go, Api/Guarded and Api/Entry what every request meets; Api/Airports is
--   airports.go, with Api/Graph on the routes that are read and Api/Lines on the lines that give one.
-- - Mail: internal/email; Mail/Delivery is about when a link counts as sent.
-- - Startup: NewServer, Listen and Close of internal/api/server.go, cmd/api and, in Startup/Runner,
--   internal/worker/runner.go and cmd/worker; Startup/Pool is NewPool
--   of internal/db/db.go. Startup/Release is about the connections that are held.
-- - Livetest: cmd/livetest/main.go, with Livetest/Refused on what it meets at the server.
-- - Examples: tests, and the theorems applied at concrete inputs.
--
-- How state is modelled: an operation of the repository is a function of the store that returns a
-- result or an error and the new store. A SQL statement is one step; a call may fail, by a list of
-- failures, and has then written nothing. A failed transaction restores both tables. A handler runs
-- to its end before the next one begins, but in Worker/Runs, where the methods of any callers may
-- alternate, and for the rate limiter, where each call is a step of one of many goroutines. A
-- request is handled by a function of it, the open response and what the handlers share. UUIDs are
-- numbers, 0 is the nil UUID, and the one that is drawn is an argument. Log lines are left out, but
-- for those of the access log.
--
-- Not modelled: the HTTP requests to the fare providers and their JSON, signals and timeouts, the
-- texts that the client of cmd/livetest prints, and the web frontend, which is another language.
pub mod Base
pub mod Floats
pub mod Geo
pub mod Routes
pub mod Startup
pub mod Mail
pub mod Livetest
pub mod Dates
pub mod Jobs
pub mod Fares
pub mod Cache
pub mod Worker
pub mod Auth
pub mod Migrations
pub mod Config
pub mod Http
pub mod Api
pub mod Examples
