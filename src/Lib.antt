-- ===== src/Lib.antt =====
-- A verification library of the voice backend, the Go program of this repository.
--
-- The program lets users talk with agents. A user's audio comes in over WebRTC (internal/realtime), a
-- speech service transcribes it (internal/transcription), and a session (internal/voicesession) routes
-- each utterance to some of the user's agents (internal/router), which are connected to a gateway
-- (internal/gateway). The agents' answers come back through the gateway's bridge, the first agent wins,
-- and its sentences are synthesised (internal/synthesis) and played. A user who speaks interrupts the
-- output. A camera's frames may be described for the agents (internal/vision). Developers publish agents in a
-- catalogue, users install them and grant them scopes (internal/agent).
--
-- Which file models which part, with the functions of the source behind its definitions:
--   Common: texts, slices and maps of Go, as they are used by all parts.
--   Speech: SpeechController (internal/voicesession/speech.go), the state machine between the user's and the
--     synthesised speech. A history of calls is a list.
--   Arbiter: Arbiter (internal/voicesession/arbiter.go), which decides whose answer is spoken.
--   SentenceBuffer: SentenceBuffer (internal/voicesession/sentence_buffer.go), which cuts an answer that streams
--     in into sentences. The segmenter of the package prose is a parameter.
--   TtsQueue: TTSQueue (internal/voicesession/tts_queue.go) with its goroutines: an event is one critical section,
--     so a list of events is an interleaving.
--   Scopes: groupByScopes, scopeKey, parseScopeKey and buildPayload (internal/voicesession/session.go), which
--     keep from an agent what its scopes do not allow; payloads of internal/transport/types.go.
--   Router: SmartRouter (internal/router/router.go, internal/router/types.go): Index, Route, SetHealth.
--   VoiceSession: the handlers of VoiceSession (internal/voicesession/session.go), composed of the parts above:
--     onSpeechStart, onSpeechEnd and executeActions with stopTTS and cancelActiveAgents, onTranscript,
--     onAgentResponse with its three handlers, and the callbacks of
--     synthesizeResponse. The flags that decide whether audio goes out are those of
--     internal/realtime/connection.go.
--   Gateway.Bridge: Bridge (internal/gateway/bridge.go): RegisterAgent, UnregisterAgent, the subscriptions of
--     sessions and their cleanup, the response handler, Close.
--   OutputWorker: OutputWorker (internal/realtime/output.go), the queue of audio frames and its counter.
--   VisionAnalyzer: Analyzer (internal/vision/analyzer.go), StartAnalysis with its goroutine, GetResult, Reset.
--   Catalog: Store, Handler, InstallHandler and CreateReview (internal/agent), on tables that are lists.
--   ApiKey: Create and Validate (internal/apikey/store.go, internal/apikey/model.go), with the hash as a parameter.
--   Gateway.Access: APIKeyAuth, RateLimiter, HandleEvent and the rounds of readPump (internal/gateway/auth.go,
--     internal/gateway/middleware.go, internal/gateway/sse_handler.go, internal/gateway/ws_conn.go): who may speak as an agent, and
--     what of it is published. It uses the keys of ApiKey.
--   Connections: the buffered channels of SSEAgentConn and WSAgentConnection (internal/gateway), and of Session and Conn
--     (internal/realtime/session.go, internal/realtime/connection.go), with all sends and closes.
--   Peer: WriteRTP and handleVideoTrack (internal/realtime/peer.go), OpusPacketDuration (internal/realtime/opus.go).
--   RealtimeApi: HandleOffer, HandleICECandidate and extractRequest (internal/realtime/handler.go) over the sessions of
--     internal/realtime/manager.go, with ProvideAuthFunc (internal/bootstrap/voice.go).
--   IceServers: the lists of internal/bootstrap/config.go, ICEServers, iceServers and generateTURNCredentials
--     (internal/realtime/manager.go).
--   Transcription: Reconnect, WaitReconnect, reconnectLoop and readLoop (internal/transcription/client.go), the receiving loop of
--     BatchTranscribe (internal/audio/batch.go).
--   AudioApi: HandleSpeech and, in AudioApi.Files, HandleTranscriptions and HandleDeleteVoice (internal/audio/handler.go), the receiving loop of
--     Synthesize (internal/synthesis/client.go). It uses ApiKey and Transcription.
--   TtsBridge: TTSBridge (internal/voicesession/tts_bridge.go), the streams that speak.
--   FrameCapturer: HandleRTPPacket, processFrame and isBlackFrame (internal/vision/capturer.go).
--   Frames: handleFrameRequest (internal/voicesession/session.go), GetFrames and Cleanup (internal/vision/analyzer.go), and
--     internal/vision/store.go over an interface to sorted sets, which Frames.Memory fills. It uses Scopes.
--   Metrics: the counters of an agent (internal/session/store.go, internal/session/model.go) over an interface to Redis, which
--     Metrics.Memory fills.
-- Each part has child modules for what is proved of it and, in Tests, runs on small inputs and the theorems at them.
--
-- How the code is modelled:
--   A text is the list of its bytes. Where the code treats letters and white space, ASCII is modelled.
--   A map is an association list, whose order is one of those in which `range` may visit it. A pointer that may
--   be nil, and an error value that is only tested, are options. A struct that methods mutate is
--   passed along; a handler that may panic returns an option.
--   A method that holds the mutex of its struct is one step. Where goroutines matter (TtsQueue, TtsBridge,
--   OutputWorker, VisionAnalyzer, Connections, Transcription, Gateway.Bridge) their critical sections are events of their own, and the theorems are about all
--   lists of events. The handlers of VoiceSession are one step each: interleavings inside of a handler are
--   not modelled.
--   An instant is a natural number of nanoseconds, with 0 for the zero `time.Time` (where a part has seconds, milliseconds
--   or another zero, its file says so); a duration is not negative. The
--   latency of an agent, which may be negative, is an integer. A counter that the code clamps at 0 is a natural
--   number with truncated subtraction.
--   Loops are structural recursions over the lists that they visit, or over the number of rounds that the source counts
--   itself (the attempts of a reconnection, the points of an image, the hours of a report), so no fuel is used.
--   A `select` takes any case that is ready: the case is part of the event. What comes from outside, such as the messages of
--   a stream, the packets of a track or the outcome of an attempt to connect, is an argument of the function that meets it.
--   Third-party code that keeps a state, a limiter or Redis, is a type with its operations; its documented behaviour is a
--   law of the interface.
--   Logging and messages to the standard output are left out. The identifiers that the code draws at
--   random are arguments.
--
-- What is not modelled: the sockets and streams of the network (gRPC, WebRTC, WebSocket, server-sent events), Redis
-- and the database drivers, which are third-party code; the Python speech services (sidecar); generated code; floats
-- (the load of an agent, ratings, audio samples); HTTP handlers that only read; the records of sessions in Redis;
-- renegotiation over a data channel; the manager of voice sessions and the settings of a new one.
pub mod Common
pub mod Speech
pub mod Arbiter
pub mod SentenceBuffer
pub mod Scopes
pub mod TtsQueue
pub mod Router
pub mod VoiceSession
pub mod Gateway
pub mod Catalog
pub mod OutputWorker
pub mod VisionAnalyzer
pub mod ApiKey
pub mod Peer
pub mod Connections
pub mod Transcription
pub mod AudioApi
pub mod TtsBridge
pub mod FrameCapturer
pub mod Metrics
pub mod IceServers
pub mod RealtimeApi
pub mod Frames
