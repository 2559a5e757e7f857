-- ===== src/Lib.antt =====
-- Headendarr: an IPTV head end in Python. This library models the parts of its backend that keep state
-- between requests or decide how a stream is made, and proves what makes them correct.
--
-- Parts and files:
-- - Prelude: Boolean tests, lists, Python's `dict` as an association list in insertion order
--   (Prelude/Dict.antt) and Python's `str` as a list of code points (Prelude/Text.antt).
-- - Cso: the channel stream organiser, backend/cso. Cso/ByteQueue.antt is `ByteBudgetQueue` of
--   common.py, the queue between an ingest or output session and one client. Cso/Capacity.antt is
--   `CsoCapacityRegistry` of capacity.py, which sessions ask before they open an upstream connection;
--   Cso/External.antt counts the connections seen outside, which that file hands to
--   `set_external_counts`. Cso/Sources.antt is the order of a channel's sources and the cache of those
--   that have failed, of sources.py. Cso/Policy.antt is policy.py; Cso/Types.antt is the source of
--   types.py. Cso/Ingest.antt is `CsoIngestSession` of live_ingest.py: Cso/Ingest/Start.antt hunts for
--   a source that delivers, reserving and releasing capacity as it goes, Cso/Ingest/Failover.antt
--   replaces a source that has failed when Cso/Ingest/Health.antt asks for it, Cso/Ingest/Stop.antt
--   gives everything back, and Cso/Ingest/Steps.antt is the relation of the blocks of many sessions
--   over one registry. Cso/Output.antt is the clients of `CsoOutputSession` of output.py, whose stop
--   leaves the ingest session that it reads; Cso/Fanout.antt is what ingest and output do alike with a
--   chunk. Cso/Runtime.antt is the map of sessions of common.py with its idle sweep, Cso/VodCache.antt
--   the state of vod_cache.py, and Cso/Playlist.antt the variants that hls.py finds.
--   Cso/Subscriptions.antt is the choice of a VOD session of subscriptions_shared.py.
-- - Profiles: backend/stream_profiles.py, the profiles (Profiles/Table.antt and the entries beside it),
--   the syntax of a request (Profiles/Request.antt), what it resolves to (Profiles/Resolve.antt) and
--   the policy that it stands for (Profiles/Policy.antt), which Cso/Policy.antt takes.
-- - Auth: Auth/RateLimit.antt and its children are backend/auth_rate_limit.py: a sliding window for the
--   OIDC endpoints, failures with a doubling cooldown for logins, and distinct wrong values for stream
--   keys; Auth/RateLimit/Endpoints.antt is what the endpoints call. Auth/ChannelAccess.antt is
--   backend/channel_access.py, which channels a user may see and stream.
-- - Headers: backend/http_headers.py, the headers that a user gives for a source. Hosts:
--   backend/xc_hosts.py, the hosts of an account.
-- - Hls: backend/hls_multiplexer.py. Hls/Multiplexer.antt is one shared stream with its clients,
--   Hls/Manager.antt the streams by key, whose idle sweep stops them, and Hls/SegmentCache.antt the
--   cache of segments.
--
-- State is a record, and each method a function from the state to the new state and its result; a
-- method that holds a lock from its start to its end is one step. The time that a method reads is an
-- argument: whole ticks, microseconds in the limiters, the failure cache and the sessions, seconds in
-- the VOD cache. What an exception leaves is `none` or a result. A policy, a dict in the source, is a
-- record of fields that may be missing. A value whose type the source does not check (`str(x or "")`,
-- `int(x or 0)`) is of the type that it has in use, or missing. Loops are structural recursions over
-- the list that they consume, so no fuel is needed; the retries of a failover are a recursion over the
-- rounds that take place, each with its times, and a result is missing only if no round ends at the
-- deadline. A session keeps its tasks, process and locks as whether they are there; a method that
-- awaits another lock is the sequence of its blocks. A hunt for a source, at the start or in a round
-- of a failover, is one step, although the program waits for HTTP and for the process between its
-- reservations: what other sessions do in between is not modelled.
--
-- Not modelled: sockets, subprocesses, the database and the logs; the Quart routes; the frontend; the
-- migrations. Of hls_multiplexer.py the read loops, which only feed `broadcast`, and the HTTP handlers.
-- A process is not modelled: only whether it could be spawned. Of a source's URLs and variants, which
-- urlparse and a playlist on the network give, the model has functions. Of sources.py the URLs of
-- candidates, which urlparse takes apart, and the reading of rows.
pub mod Prelude
pub mod Cso
pub mod Auth
pub mod Headers
pub mod Hosts
pub mod Hls
pub mod Profiles
