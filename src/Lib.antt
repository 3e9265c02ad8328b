-- ===== src/Lib.antt =====
-- A verification library of telegram-server, a Telegram-compatible server written in Go.
--
-- The server accepts sockets (TCP or WebSocket, optionally behind a balancer), establishes the client's
-- address, negotiates a transport, exchanges keys and then serves encrypted RPC frames. A connection
-- carries the state of its client: who has signed in, which client session it is in, how far the
-- updates of its owner have been pushed, which of its own results still have to be accounted for, and
-- whether it must fetch its folders again. The registry finds the connections of a user for the delivery
-- loop, the limits bound what anonymous or half signed-in connections may hold, and the database bounds
-- what a subject may ask for over time.
--
-- Beside it runs the service of a link host: the selector sends a request to the web client or to the
-- landing service, which must not learn what the link was.
--
-- The files, by the code that they model:
--   Common and its children: lists, maps, searches, counts and texts, over native numbers.
--   Net: what the program uses of net/netip.
--   Discovery: internal/discovery/discovery.go, the preflight request and response. Wire has the words of
--     encoding/binary, Slices and Body the lemmas on them, Inverse the round trip.
--   Link: internal/linkselector/selector.go and internal/linklanding/landing.go. Target is classifyTarget
--     (classify_target), Landing the landing service, Headers copyResponseHeaders and
--     removeHopByHopHeaders, Serve the handlers serveWeb and serveLanding.
--   Mtproto/Conn: internal/mtproto/send.go, the type Conn, in four parts that share a connection.
--     Barrier is the queue of sender results and its overflow (BeginRPCUpdateAttempt, register is its
--     second half). Barrier/Settle has SetRPCUpdatePtsAttempt (set_pts_attempt), ClearRPCUpdateAttempt
--     (clear_attempt), markRPCUpdateLocked (mark) and markRPCResultLocked (mark_result), and Barrier/Push
--     PushTo, PushToAtWatermark and what setOwner and setKey do to barriers. Shape, Kept and Calls show
--     the invariant, Attempts, Release, Watermark and Rebind the other properties.
--     Recovery is the dialog-filter recovery state, Outcomes the ring behind invokeAfterMsg
--     (recordRPCOutcome is push, RPCDependencyOutcome is dependency_outcome), and Binding puts the parts
--     together under setOwner, setKey and setSession.
--   Mtproto/Limits: internal/mtproto/preauth.go (PreAuth), internal/mtproto/unboundkey.go (UnboundKey)
--     and internal/mtproto/pendinglogin.go (PendingLogin); Counters is the map that two of them keep.
--     Discovery is the limiter of internal/mtproto/preflight.go and Unimplemented the budgets and lines of
--     internal/mtproto/unimplemented.go; FixedWindow is the window that these two count in.
--   Mtproto/Registry: internal/mtproto/sessions.go.
--   Mtproto/Accept: internal/mtproto/proxyproto.go, the PROXY v2 header (ProxyHeader) and the log sampler
--     (Sampler); and Framing, sniffFraming of internal/mtproto/obfuscated.go and probePreflight of
--     internal/mtproto/preflight.go.
--   Api/DialogFilterSync: internal/api/dialog_filter_sync.go; Queue is its recovery queue. It drives the
--     Recovery part of a connection.
--   Store/IpBucket: IPBucketKey of internal/store/send_code_ip.go, by which PreAuth keys its counters.
--   Store/RateLimit: internal/store/rate_limits.go with internal/store/queries/rate_limits.sql.
--   Store/SendCode: the rest of internal/store/send_code_ip.go, with internal/store/queries/send_code_ip.sql.
--   Store/Codes: internal/store/codes.go with internal/store/db/codes.sql.go, the login codes; decide and
--     settle are the halves of verifyCodeWith, up to its statement and from it.
--   Store/SignInFail: internal/store/sign_in_fail.go with internal/store/db/sign_in_fail.sql.go.
--   Store/UsernameLookups: CheckAndChargeUsernameLookup of internal/store/username_lookups.go with
--     internal/store/db/username_lookups.sql.go.
--   Store/Invites: internal/store/registration_invites.go with internal/store/db/registration_invites.sql.go;
--     consume_row is ConsumeInvite from the row that it has locked.
--   Mtproto/Tests, Api/Tests, Store/Tests, Store/LoginTests, Link/Tests, Discovery/Tests: runs at concrete
--     inputs.
--
-- How the code is read. A function of the source that holds a mutex is one step of the model, and so
-- is the iteration of a compare-and-swap loop that wins; in PendingLogin and Sampler the load and the
-- swap are steps of their own, which goroutines interleave. setKey is one step, though the source
-- publishes the new key's id right after it unlocks. A Go int, int64 or uint64 is its bit
-- pattern, a number below 2 ^ 64 with its wrap-around written out, and is_pos, is_neg and signed_lt read
-- its sign. What the encoder, the context and the socket do during a push is an argument (Weather), and
-- so are the clock, the ids that atomic counters give out, random bytes, and whether a transaction commits. A socket
-- is the list of the bytes that it delivers, and a string the list of its bytes.
--
-- Code outside the repository is a parameter where a theorem depends on it: the semaphore of
-- golang.org/x/sync for the bodies that the link host holds, with what its documentation says of acquiring
-- and releasing; the keys of crypto/rsa and crypto/x509 in Discovery, of which a marshalled one is parsed
-- back; the tags of gotd's codecs in Framing; and SHA-256 in Store/Invites, any function.
--
-- No function needs fuel: every loop of the source that is modelled runs over a list or counts down,
-- and is structural recursion. The queue and its overflow hold 64 barriers each and the ring 64 outcomes,
-- as in the source.
--
-- Not modelled: the TL codec, encryption and key exchange, which are gotd's; the HTTP, WebSocket and
-- socket I/O around the handlers; the administration pages; object storage; and the handlers of
-- internal/api and internal/store that mainly convert between rows and TL types. PushDialogFilterRecovery
-- is modelled up to its write, and SampleDeliveryLag, the accept loop, the delivery loop, the JSON document
-- of internal/discovery and the administration of internal/admin are left out.
pub mod Common
pub mod Net
pub mod Discovery
pub mod Link
pub mod Store
pub mod Mtproto
pub mod Api
