-- ===== src/Lib.antt =====
-- The parts of aduib_rpc that decide: its resilience patterns and the interceptor that applies
-- them, its access control, its background tasks, service discovery, the scopes of its runtime,
-- and the messages of its protocol with their forms on the wire. Each part is an object that the
-- server or the client holds and calls; the executors of retries call through a circuit breaker,
-- if they have one. A method that works under the object's lock, or between two suspensions of
-- the event loop, is one function from state to state here, and the reading of the clock that it
-- makes is an argument of that function. Names of functions and fields are those of the source,
-- without the leading underscore and the suffix _locked.
--
--   Prelude             names that all files share; Prelude/Dict is Python's dict in insertion
--                       order, Prelude/Settings the clamping of signed settings, Prelude/Text
--                       the equality of texts, Prelude/Options chains of steps that may fail
--   Exceptions          src/aduib_rpc/exceptions.py: the classes, their codes, isinstance
--   Protocol/Errors     src/aduib_rpc/protocol/v2/errors.py: codes, statuses, exceptions
--   Protocol/Wire       the enumerations of src/aduib_rpc/protocol/v2 and their wire numbers
--   Resilience          src/aduib_rpc/resilience
--     CircuitBreaker    circuit_breaker.py: the state machine. `call` is a call that no other
--                       overlaps; in CircuitBreaker/Schedule calls overlap in any order
--     RateLimiter       rate_limiter.py: the three algorithms; `acquire_or_wait` is a loop over
--                       rounds, between which other tasks may do anything
--     Bulkhead          bulkhead.py: the semaphore, the queue and the tasks that wait at them;
--                       the events of the loop are a list
--     RetryPolicy       retry_policy.py: RetryExecutor over an arbitrary state, or through a
--                       CircuitBreaker
--     Cache             cache.py: InMemoryCache; a key with no entry and one that is expired
--                       look alike to a reader
--     IdempotencyCache  cache.py: InMemoryIdempotencyCache, with its bound and its eviction
--     Fallback          fallback.py: handlers, nested chains and FallbackExecutor
--   Security/Rbac       src/aduib_rpc/security/rbac.py, for any fnmatch
--   Tasks/Types         src/aduib_rpc/server/tasks/types.py: statuses with their wire numbers
--   Tasks/Manager       src/aduib_rpc/server/tasks/task_manager.py: InMemoryTaskManager with its
--                       queues; a task's coroutine is the steps that it makes at start and end
--   Discover            src/aduib_rpc/discover
--     Instance          entities/service_instance.py
--     LoadBalance       load_balance/load_balance.py: the weighted and the random balancer
--     Ring              ConsistentHashLB of the same file, for any hash; Ring/Nearest is what the
--                       sorted keys find, Ring/Nodes the virtual nodes as one list
--     Registry          registry/in_memory.py, and its history of calls
--     Health            health/health_status.py, registry/health_aware_registry.py, and the health
--                       cache of src/aduib_rpc/client/transports/health_aware.py
--   Server/Handler      ResilienceHandler of src/aduib_rpc/server/interceptors/resilience.py, over a
--                       CircuitBreaker and a Fallback
--   Server/Interceptor  ServerResilienceInterceptor of the same file, over a RateLimiter for each
--                       tenant and a Bulkhead; in Interceptor/Requests requests come and go
--   Server/Qos          QosHandler of src/aduib_rpc/server/qos/handler.py: the requests between their
--                       suspensions, over an interface of what is used of a Cache
--   Protocol/Messages   the messages of src/aduib_rpc/protocol/v2 and server/tasks/types.py as records
--   Protocol/Proto      src/aduib_rpc/utils/grpc_v2_utils.py, ToProto and FromProto, over the messages of
--                       src/aduib_rpc/proto/aduib_rpc_v2.proto; Proto/RoundTrip what is kept of each,
--                       Proto/Ranges and Proto/Sendable which messages can be sent
--   Protocol/Thrift     src/aduib_rpc/utils/thrift_v2_utils.py, ToThrift and FromThrift, in the same way
--                       over the structs of src/aduib_rpc/proto/aduib_rpc_v2.thrift
--   Server/Credentials  principals, tokens, permissions and anonymous methods: the helpers of the
--                       security interceptor, and src/aduib_rpc/security/validators.py
--   Server/Security     SecurityInterceptor of src/aduib_rpc/server/interceptors/security.py over an
--                       RbacPolicy; Security/Defaults is its constructor, and Security/Guard puts it
--                       into a chain
--   Server/Chain        InterceptorChain of src/aduib_rpc/server/context.py, and in Chain/Version an
--                       interceptor, src/aduib_rpc/server/interceptors/version_negotiation.py
--   Server/Runtime      src/aduib_rpc/server/rpc_execution/runtime.py: runtimes in a store, their
--                       parents as addresses, the ContextVar with its tokens
--   Server/MethodName   MethodName of src/aduib_rpc/server/rpc_execution/method_registry.py
--   Tests               runs on concrete inputs
--
-- Units. Python's floats are whole numbers here: times are microseconds (milliseconds in the
-- task manager, as there), the level of a token bucket is millionths of a token, rates are whole
-- tokens a second, multipliers are whole and the jitter is in thousandths. No rounding is added:
-- where the code rounds, so does the model. Integers of Python have no bound, and settings that
-- may be negative are signed until they are clamped; the numbers in messages are not negative.
-- The loop of `acquire_or_wait` is recursion over the list of its rounds, and that of
-- RetryExecutor over the attempts that are left, so neither has fuel; the lookup through the
-- parents of a runtime has fuel, one more than its address.
--
-- Not modelled are the transports, servers and clients (network I/O over third-party libraries),
-- the generated gRPC and Thrift code, configuration, telemetry and mTLS, and for now the
-- conversions for JSON and the request handlers. MD5, fnmatch, json and protobuf's json_format,
-- random draws, regular expressions and Python's conversions of texts and numbers are arguments.
-- asyncio's lock, semaphore, queue and event, contextlib's asynccontextmanager, ContextVar and
-- protobuf's HasField are used as documented. Outside Protocol, metadata, messages and details
-- of errors that no test reads are left out.
pub mod Prelude
pub mod Exceptions
pub mod Protocol
pub mod Resilience
pub mod Security
pub mod Tasks
pub mod Discover
pub mod Server
pub mod Tests
