-- ===== src/Proxy/Examples.antt =====
-- A request that passes, and a takeover while another one reads its body.
use hermes_fleet.Prelude.{◌≡◌, refl, true, false, [], ◌∷◌}
use hermes_fleet.Proxy.Handler.{
  Request, not_found, number, got, answers, handle, framed, read_body, admitted, forward,
  lock_is_active, IsForwarded, Admitted, forwarded-Admitted,
}
use hermes_fleet.Proxy.Gate.{
  State, Reachable, draining, touched, at_start, one_more, start, arrives, touches, drains, arrival,
  is_fenced, NoneForwarding, no_request_during_takeover,
}

abbrev request : Request
request = record {
  first = not_found;
  length = number 3;
  transfer_encoding = false;
  body = got 3;
  gate_opens = true;
  second = not_found;
  upstream = answers 200;
}

passes : IsForwarded (handle request)
unfolding handle framed read_body admitted forward lock_is_active
passes = tt

forwarded-Admitted_example : Admitted request
forwarded-Admitted_example = forwarded-Admitted request passes

unfoldable arrived : State
unfolding arrival
arrived = record (start false) { requests = arrival false ∷ [] }

unfoldable drained : State
unfolding arrived
drained = record arrived { marker = true; takeover = draining }

drained-Reachable : Reachable drained
unfolding drained arrived arrival
drained-Reachable =
    one_more (one_more (one_more (at_start false) (arrives (start false))) (touches arrived refl))
      (drains (record arrived { marker = true; takeover = touched }) refl (refl, tt))

drained_fenced : is_fenced drained.takeover ≡ true
unfolding drained
drained_fenced = refl

no_request_during_takeover_example : NoneForwarding drained.requests × (drained.marker ≡ true)
no_request_during_takeover_example = no_request_during_takeover drained-Reachable drained_fenced
