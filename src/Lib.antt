-- ===== src/Lib.antt =====
-- The multitenant policy gateway in front of an AIBrix/vLLM upstream (src/tenant_policy_gateway).
--
-- A request comes in at `_handle_llm_request` of main.py. The gateway resolves its Host header to a
-- tenant of the registry, authenticates the caller, checks the model and the LoRA adapter against
-- the tenant's policy, governs the adapter's artifact, refuses streams that could not be billed,
-- asks the quota enforcer, builds the outbound headers, calls the upstream, frees the slot, and
-- puts the reply's usage in the billing ledger. Every reply is reported in an event.
--
-- Which file models which part (paths are below src/tenant_policy_gateway):
--   Settings, Settings/*      config.py: the modes, AppSettings and its validators; Env reads the environment.
--   Reason                    the reason strings of all files, as constructors.
--   Registry, Registry/*      tenant_registry.py: validation, `TenantRegistry.load`, `resolve_by_host`.
--   Headers, Headers/*        header_sanitizer.py, and `_build_outbound_headers` of main.py.
--   Auth, Auth/*              jwt_validation.py: mock and OIDC authentication.
--   Policy, Policy/*          policy_engine.py: `parse_gateway_request_body` and `evaluate_policy`.
--   Governance                adapter_governance.py: `evaluate_adapter_governance`.
--   Quota, Quota/Memory/*     quota_enforcer.py: the protocol QuotaEnforcer with the laws the gateway
--                             relies on, and InMemoryQuotaEnforcer, which fulfils it.
--   Quota/Redis, */*          quota_enforcer.py: the Lua scripts, and RedisQuotaEnforcer in Methods.
--   Quota/Create              quota_enforcer.py, create_quota_enforcer: the enforcer the settings choose.
--   Billing, Billing/*        billing_ledger.py: replay memory, queue, `append`, `flush`; Worker is the
--                             worker thread and `close`, Aws the batches over DynamoDB and S3.
--   Json, Metering, */*       metering.py: the texts of a body, the estimates, the tokenizer's choice.
--   Metrics, Metrics/*        slo_metrics.py: the counters and the Prometheus text.
--   Observability, */*        audit.py, and `_emit_observability` of main.py, which reports an event to
--                             the log, the audit sink and the counters.
--   Proxy, Proxy/*            proxy.py: the chunks of a stream, and the loop of main.py over them.
--   Verifier, Verifier/*      adapter_artifact_verifier.py: the checks and the exit code.
--   Jwks, Jwks/*              jwks_cache.py: the cache of JWKS clients.
--   Posture, Posture/*        security_posture.py: the findings and what they block.
--   Gateway, Gateway/*        main.py: the handler; Admission is its part before the quota, Handler
--                             the part from the quota on and the end of a stream, Ready what
--                             `lifespan` and `readyz` do.
--   Common, Examples          shared tests, lists, texts and dictionaries; sample data.
--
-- State is passed explicitly: an operation that mutates an object takes its record and returns the
-- next one. A call that may raise returns a Result or an Option. A dictionary is an association list
-- whose writes keep the place of a key, as in Python. Times are whole milliseconds, token counts and
-- limits are numbers without bound, as Python's are. A text is its list of code points; `lower` is
-- exact below U+0100. All loops are structural recursion on a list, a text or a value. Only `show`,
-- which writes a number in decimal, runs on fuel, one more than the number; `read-show` shows that
-- this is enough.
--
-- Parameters, with no definition here: the pydantic schema (Policy.Schema), PyJWT
-- (Auth.JwtLibrary), the sorted sets of Redis with its Lua's `tostring` (Quota.SortedSets), DynamoDB and S3
-- (Billing.Aws.AwsServices), files and digests (Verifier.Artifacts), json.dumps, the third-party tokenizers, `sorted`, `int` and `float`, `uuid4`, the clock, and
-- what the upstream answers. The laws of the two services say what their documentation says of
-- each command, of the calls that fail as well; the tests fill them with dictionaries in memory.
-- The gateway is generic over QuotaEnforcer and over the token estimate; the tests use it with the
-- in-memory enforcer. The Redis enforcer has theorems of its own, since it frees the oldest slot when
-- it is given an empty request id, which the protocol's laws exclude.
--
-- A write that may fail has its outcome as an argument: what the sink of the ledger took of a batch,
-- whether the audit file was writable, whether the evidence file was written. Whether a logger lets
-- INFO through, as APP_LOG_LEVEL has it, is part of what Observability keeps. `format` accepts plain
-- fields only: a template with a format specification, a conversion or an attribute fails in it.
--
-- Not modelled: the HTTP calls of proxy.py, and other logging; the handler's
-- events leave out latencies and estimates, which Observability has. A request is handled in one step, so two requests do not interleave inside the handler; the histories of the enforcers, the
-- ledger and the caches are arbitrary sequences of their operations.
pub mod Common
pub mod Settings
pub mod Reason
pub mod Registry
mod Examples
pub mod Headers
pub mod Json
pub mod Jwks
pub mod Metering
pub mod Metrics
pub mod Observability
pub mod Auth
pub mod Policy
pub mod Governance
pub mod Quota
pub mod Billing
pub mod Posture
pub mod Verifier
pub mod Proxy
pub mod Gateway
