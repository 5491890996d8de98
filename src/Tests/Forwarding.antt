-- ===== src/Tests/Forwarding.antt =====
-- The theorems on forwarded calls, applied. A request is a number, and the service answers with its
-- double. It comes up after as many waits as the state says.
use ros1_bridge.Prelude.{ℕ, zero, suc, ◌+◌, ◌≡◌, refl, Bool, true, false, some}
use ros1_bridge.Prelude.Exec.{Exec, ok, throw, out_of_fuel, pure}
use ros1_bridge.Prelude.Int.{pos}
use ros1_bridge.Factory.Forward.{
  ServiceRelay, forward_1_to_2, forward_2_to_1, answer_2_to_1, forward_typed, wait, send,
  take_response,
}
use ros1_bridge.Factory.Forward.Outcome.{Forwarded, forward_1_to_2-Forwarded}
use ros1_bridge.Factory.Forward.Called.{IsCalled, forward_2_to_1-IsCalled}
use ros1_bridge.Factory.Forward.Waiting.{IsResponsive, forward_1_to_2_waits}
use ros1_bridge.Tests.{sim}

abbrev wait_a_round : Exec ℕ Bool
wait_a_round zero = (ok true, zero)
wait_a_round (suc n) = (ok false, n)

abbrev doubling : Exec ℕ Bool → ServiceRelay sim
doubling wait_once = record {
  Request1 = ℕ;
  Response1 = ℕ;
  Request2 = ℕ;
  Response2 = ℕ;
  Future = ℕ;
  request_1_to_2 = λ n. pure n;
  response_1_to_2 = λ n. pure n;
  request_2_to_1 = λ n. pure n;
  response_2_to_1 = λ n. pure n;
  call = λ client n. pure (some (n + n));
  get_service = λ client. "/double";
  is_typed = λ client. true;
  wait_for_service = λ client. wait_once;
  is_ok = pure true;
  async_send_request = λ client n. pure n;
  wait_for = λ future seconds. pure true;
  get = λ n. pure (n + n);
}

abbrev late : ServiceRelay sim
late = doubling wait_a_round

abbrev absent : ServiceRelay sim
absent = doubling (pure false)

absent-IsResponsive : IsResponsive absent 7
absent-IsResponsive = record {
  request = λ r w. (_, refl);
  response = λ r w. (_, refl);
  sends = λ r w. (_, refl);
  waits = λ f s w. (_, refl);
  gets = λ f w. (_, refl);
}

forward_1_to_2_waits_example : (forward_1_to_2 absent 4 7 21 (pos 5) 3).0 ≡ throw out_of_fuel
forward_1_to_2_waits_example =
    forward_1_to_2_waits absent 7 4 21 (pos 5) 3 absent-IsResponsive refl (λ v. refl) (λ v. refl)

answered : forward_1_to_2 late 4 7 21 (pos 5) 3 ≡ (ok (some 42), 0)
unfolding forward_1_to_2 forward_typed wait send take_response
answered = refl

forward_1_to_2-Forwarded_example : Forwarded late 7 21 (pos 5) 3 (some 42) 0
forward_1_to_2-Forwarded_example =
    forward_1_to_2-Forwarded late 4 7 21 (pos 5) (some 42) 3 0 answered

doubled : forward_2_to_1 late 7 21 3 ≡ (ok 42, 3)
unfolding forward_2_to_1 answer_2_to_1
doubled = refl

forward_2_to_1-IsCalled_example : IsCalled late 7 21 42 3 3
forward_2_to_1-IsCalled_example = forward_2_to_1-IsCalled late 7 21 42 3 3 doubled
