-- ===== src/Lib.antt =====
-- hermes-fleet: a verification library for the services that lend an agent's browser to a human, and for
-- the outbox and the acceptance of closeouts of its Linear plugin.
--
-- An agent drives a browser. A human takes it over through a handoff: the broker mints a short-lived
-- session for a principal of its policy, the human opens its page, acquires the takeover lock, which
-- fences the agent's own requests off, sees and drives the browser, and ends the session or releases it
-- to Observe, where the viewer may look and not touch. The parts:
--
--   Broker    sidecars/browser-broker/session_policy.py, class HandoffBroker. Broker/Types has the
--             records (_Session, Invocation, AccessPrincipal) and the broker's state; Broker/Policy
--             _authorized_principal_from; Broker/Handoff mint, status, end_current, status_for_agent,
--             end_for_agent, debug; Broker/Viewer public_page, extend, end, confirm_takeover,
--             acquire_takeover, acquire_takeover_if_current, release_to_observe, attach_socket,
--             detach_socket, run_while_active, forward_viewer_rfb, send_viewer_input; Broker/Terminal
--             _begin_terminal, _finish_terminal, _expire_session, expire_sessions and the pruning of
--             terminal records; Broker/Reload replace_principals and _revoke_after_policy_change.
--             A method is a function from the broker to a result and the broker that it leaves
--             (Broker/Exec), so that an exception keeps the changes made before it. Broker/Operation
--             is every method as one type of requests, and histories of them: methods run one at a time, and
--             the locked sections of two threads do not interleave; a background end is a request of its own.
--             Broker/Steps cuts the methods into changes of the tables, for the proof that they keep
--             Broker/Invariant, and translates no code.
--   Rfb       sidecars/browser-broker/rfb_filter.py. Rfb/Frames is client_binary_frame and
--             WebSocketClientFrames, Rfb/Observe is ObserveRfb. A position in the data is the rest of
--             the data behind it.
--   Origin    sidecars/browser-broker/origin.py and origin_routing.py. Origin/Routing is the names of
--             agents, required_agent_value, route_for_agent, _route_key and route_for; Origin/Lock
--             checkpoint_before_end and checkpoint_then_release on a world of lock files, with the
--             checkpoint service as a parameter that may answer anything; Origin/Lifecycle is
--             InheritedLockLifecycle, which stands behind the broker's callbacks; Origin/Principals
--             load_principals on what json.loads gives (Prelude/Json), with Python's str as a parameter.
--             A path is its text. Origin/Resources is load_workspace_routes, split_host and
--             load_capabilities, with urlsplit, int and Path.resolve as parameters. Origin/Settings is resolve_single_bind and configured_bind, with the
--             resolver as a parameter, and canonical_public_url of public_config.py; Origin/Rollout is
--             rollout_contract.py.
--   Issuance  plugins/browser-handoff/policy.py: issuance_allowed, by the texts of the invocation.
--   Proxy     sidecars/rest-lock-proxy/lock_proxy.py. Proxy/Handler is lock_is_active, _handle and
--             _forward by what the files, the client and the upstream answer; Proxy/Gate the
--             interleavings of requests in the proxy with take_automation_lock of origin_routing.py:
--             a request holds the shared lock of the directory while it is forwarded, a takeover waits
--             for the exclusive one. The marker is removed only while no takeover is under way.
--   Lane      sidecars/kokoro/worker_lane.py, class WorkLane of the voice sidecar, as steps of its
--             callers and workers; the test of a job's deadline and the call of its function are two steps.
--             The watchdog timer of a call is left out.
--   Linear    plugins/linear/acceptance.py and store.py. A closeout of an issue may claim a pull
--             request; acceptance.py asks GitHub whether its required checks are proved on the exact
--             head, and store.py keeps the writes to Linear in an outbox until they are sent.
--             Linear/Acceptance: Reads is the replies of GitHub, as a parameter that answers the n-th
--             read, and what a reply of another shape raises; Receipt checks_read_denied, unverified
--             and _closed_unmerged; Runs _rows, _trusted_run, _classify and _current_pr; Collect,
--             Judge and Fallback the body of actions_fallback in the order of its reads, and settle.
--             A number of a reply is a natural number, and a class of core's receipt is a text.
--             Linear/Outbox: Payload is the tests on a payload; Table the tables and
--             _hold_legacy_outbox; Operations mark, mark_sent, drop, defer, report, rewrite,
--             retire_advisory, retry and revive_failed, each one transaction; Due is due; Prompts the
--             reservation of the answer to a prompt; Admission is admit_mutation, which marks a row before
--             its send, Withdrawal mutation_not_attempted, which takes the mark back, and Effects the
--             tests on the other writes that they call. A table is the list of its rows, an id is the
--             primary key, and SQL's NULL in the test for advisory rows is kept as a third truth
--             value. The time is whole seconds. Not modelled of the store: enqueue, project updates,
--             the bindings of work, and the migration of its schema.
--
-- The code that the broker is given (closers, preflights, callbacks, the e-mail digest, the public
-- URL, the ids of uuid4, the clock) is the record Env and the arguments of the methods; a callback
-- may return or raise anything, and no theorem assumes that one succeeds. A callback does not call the
-- broker back within a section. Times are natural numbers. Text is a list of code points;
-- str.lower maps the letters of ASCII, Latin-1, Latin Extended-A, Greek and Cyrillic one by one and leaves
-- other scripts as they are.
--
-- Bounds and fuel: the loops of the filter run on fuel that is one more than the bytes in the buffer,
-- and every turn takes at least one byte away (two in the frame decoder). The loop of the outbox that
-- holds what depends on a held row runs on one more than the rows that are not held, and every pass
-- but the last holds one. All other loops are structural.
--
-- Not modelled: the HTTP handlers, the splicing of sockets and the pages of the broker's origin (I/O
-- and text), the constructor's argument checks, and the other plugins, sidecars and scripts of the
-- repository; of the Linear plugin, the bridge, its API client and what calls the network or the gateway.
pub mod Prelude
pub mod Broker
pub mod Rfb
pub mod Issuance
pub mod Lane
pub mod Linear
pub mod Origin
pub mod Proxy
