-- ===== src/Proxy/Gate.antt =====
-- Requests that are in the proxy at once, and a takeover: the interleavings of `_handle` of lock_proxy.py
-- and of `take_automation_lock` of origin_routing.py, which share a lock on the directory of the marker.
use mathlib.Core.Path.{subst}
use mathlib.Core.Bool.{false≢true}
use hermes_fleet.Prelude.{
  sym, ap, ◌∙◌, All-append, ◌≡◌, refl, Bool, true, false, List, [], ◌∷◌, ◌++◌, arith, if◌then◌else◌,
  All,
}

-- Where a request is: its body is being read; it holds the shared lock and has yet to look at the
-- marker again; it is being forwarded; it is over.
pub data Phase : Type 0 where
  reading holding forwarding over : Phase

-- Where the takeover is: none; the marker is there; the exclusive lock is held; it has been acknowledged.
pub data Takeover : Type 0 where
  idle touched draining acknowledged : Takeover

pub record State : Type 0 where
  pub marker : Bool
  pub takeover : Takeover
  pub requests : List Phase

-- The proxy starts with no request; a marker may be left of an earlier process.
abbrev pub start : Bool → State
start marker = record { marker = marker; takeover = idle; requests = [] }

-- No takeover is under way.
abbrev pub is_settled : Takeover → Bool
is_settled idle = true
is_settled acknowledged = true
is_settled _ = false

-- A request holds the shared lock.
abbrev pub is_shared : Phase → Bool
is_shared holding = true
is_shared forwarding = true
is_shared _ = false

abbrev pub is_draining : Takeover → Bool
is_draining draining = true
is_draining _ = false

-- `if lock_is_active(...): self._locked(); return`, when the request comes
unfoldable pub arrival : Bool → Phase
arrival marker = if marker then over else reading

-- The same test under the gate: `_locked`, or `_forward`
unfoldable pub recheck : Bool → Phase
recheck marker = if marker then over else forwarding

abbrev pub NoneShared : List Phase → Type 0
NoneShared = All (λ p. is_shared p ≡ false)

-- What the proxy's threads and the broker do, one at a time. The broker removes the marker while no
-- takeover is under way: a release and a takeover of one session exclude each other.
pub data Step : State → State → Type 0 where
  arrives : (s : State) → Step s (record s { requests = s.requests ++ (arrival s.marker ∷ []) })
  enters :
      (s : State) (before after : List Phase)
      → s.requests ≡ before ++ (reading ∷ after)
      → is_draining s.takeover ≡ false
      → Step s (record s { requests = before ++ (holding ∷ after) })
  rechecks :
      (s : State) (before after : List Phase)
      → s.requests ≡ before ++ (holding ∷ after)
      → Step s (record s { requests = before ++ (recheck s.marker ∷ after) })
  leaves :
      (s : State) (p : Phase) (before after : List Phase)
      → s.requests ≡ before ++ (p ∷ after)
      → Step s (record s { requests = before ++ (over ∷ after) })
  touches :
      (s : State) → s.takeover ≡ idle → Step s (record s { marker = true; takeover = touched })
  drains :
      (s : State)
      → s.takeover ≡ touched
      → NoneShared s.requests
      → Step s (record s { takeover = draining })
  acknowledges : (s : State) → s.takeover ≡ draining → Step s (record s { takeover = acknowledged })
  fails : (s : State) → s.takeover ≡ touched → Step s (record s { takeover = idle })
  unlinks :
      (s : State)
      → is_settled s.takeover ≡ true
      → Step s (record s { marker = false; takeover = idle })

pub data Reachable : State → Type 0 where
  at_start : (marker : Bool) → Reachable (start marker)
  one_more : {s t : State} → Reachable s → Step s t → Reachable t

-- The lock is being held, or was held since the marker was last set.
abbrev pub is_fenced : Takeover → Bool
is_fenced draining = true
is_fenced acknowledged = true
is_fenced _ = false

abbrev is_taken : Takeover → Bool
is_taken idle = false
is_taken _ = true

abbrev pub is_forwarding : Phase → Bool
is_forwarding forwarding = true
is_forwarding _ = false

abbrev pub NoneForwarding : List Phase → Type 0
NoneForwarding = All (λ p. is_forwarding p ≡ false)

record Ok (s : State) : Type 0 where
  pub marked : is_taken s.takeover ≡ true → s.marker ≡ true
  pub alone : is_draining s.takeover ≡ true → NoneShared s.requests
  pub quiet : is_fenced s.takeover ≡ true → NoneForwarding s.requests

module _ (P : Phase → Type 0) where
  -- One request moves on.
  All-moved :
      (before after : List Phase) (p q : Phase)
      → All P (before ++ (p ∷ after))
      → P q
      → All P (before ++ (q ∷ after))
  All-moved [] after p q h k = (k, h.1)
  All-moved (x ∷ before) after p q h k = (h.0, All-moved before after p q h.1 k)

shared-forwarding : (rs : List Phase) → NoneShared rs → NoneForwarding rs
shared-forwarding [] h = tt
shared-forwarding (p ∷ rs) h = (ground arith, shared-forwarding rs h.1)

fresh_request :
    (marker : Bool)
    → (is_shared (arrival marker) ≡ false) × (is_forwarding (arrival marker) ≡ false)
unfolding arrival
fresh_request true = (refl, refl)
fresh_request false = (refl, refl)

marked_recheck : (marker : Bool) → marker ≡ true → recheck marker ≡ over
unfolding recheck
marked_recheck marker h = ground arith

module _ (s : State) (o : Ok s) where
  fenced-marker : is_fenced s.takeover ≡ true → s.marker ≡ true
  fenced-marker f = o.marked (ground arith)

  drained-marker : is_draining s.takeover ≡ true → s.marker ≡ true
  drained-marker f = o.marked (ground arith)

  arrives-Ok : Ok (record s { requests = s.requests ++ (arrival s.marker ∷ []) })
  arrives-Ok = record {
    marked = o.marked;
    alone = λ d. All-append _ s.requests _ (o.alone d) ((fresh_request s.marker).0, tt);
    quiet = λ f. All-append _ s.requests _ (o.quiet f) ((fresh_request s.marker).1, tt);
  }

  -- A request that moves to a phase which the takeover allows.
  moves-Ok :
      (p q : Phase) (before after : List Phase)
      → s.requests ≡ before ++ (p ∷ after)
      → (is_draining s.takeover ≡ true → is_shared q ≡ false)
      → (is_fenced s.takeover ≡ true → is_forwarding q ≡ false)
      → Ok (record s { requests = before ++ (q ∷ after) })
  moves-Ok p q before after e h k = record {
    marked = o.marked;
    alone = λ d.
        All-moved (λ r. is_shared r ≡ false) before after p q (subst NoneShared e (o.alone d))
          (h d);
    quiet = λ f.
        All-moved (λ r. is_forwarding r ≡ false) before after p q
          (subst NoneForwarding e (o.quiet f)) (k f);
  }

Step-Ok : {s t : State} → Step s t → Ok s → Ok t
Step-Ok (arrives s) o = arrives-Ok s o
Step-Ok (enters s before after e free) o =
    moves-Ok s o reading holding before after e (λ d. absurd (false≢true (sym free ∙ d)))
      (λ f. refl)
Step-Ok (rechecks s before after e) o =
    moves-Ok s o holding (recheck s.marker) before after e
      (λ d. ap is_shared (marked_recheck s.marker (drained-marker s o d)))
      (λ f. ap is_forwarding (marked_recheck s.marker (fenced-marker s o f)))
Step-Ok (leaves s p before after e) o = moves-Ok s o p over before after e (λ d. refl) (λ f. refl)
Step-Ok (touches s e) o = record { marked = λ h. refl; alone = λ d. cc; quiet = λ f. cc }
Step-Ok (drains s e none_shared) o = record {
  marked = λ h. o.marked (rw e refl);
  alone = λ d. none_shared;
  quiet = λ f. shared-forwarding s.requests none_shared;
}
Step-Ok (acknowledges s e) o = record {
  marked = λ h. o.marked (rw e refl);
  alone = λ d. cc;
  quiet = λ f. o.quiet (rw e refl);
}
Step-Ok (fails s e) o = record { marked = λ h. cc; alone = λ d. cc; quiet = λ f. cc }
Step-Ok (unlinks s e) o = record { marked = λ h. cc; alone = λ d. cc; quiet = λ f. cc }

Reachable-Ok : {s : State} → Reachable s → Ok s
Reachable-Ok (at_start marker) = record { marked = λ h. cc; alone = λ d. cc; quiet = λ f. cc }
Reachable-Ok (one_more r step) = Step-Ok step (Reachable-Ok r)

-- However requests and takeovers interleave, from the moment at which a takeover holds the exclusive
-- lock until its marker is removed no request is being forwarded, and the marker refuses new ones.
pub no_request_during_takeover :
    {s : State}
    → Reachable s
    → is_fenced s.takeover ≡ true
    → NoneForwarding s.requests × (s.marker ≡ true)
no_request_during_takeover {s} r f = let o = Reachable-Ok r in (o.quiet f, fenced-marker s o f)
