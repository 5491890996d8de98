-- ===== src/Factory/Forward/Outcome.antt =====
-- Where the answer to a forwarded call comes from.
use ros1_bridge.Prelude.{
  ℕ, zero, suc, ◌≡◌, ap, ◌∙◌, subst, inl, inr, Bool-cases, Bool, true, false, Option, none, some,
}
use ros1_bridge.Prelude.Exec.{Exec, ok, ok_value, pure, ◌>>=◌, bind_run}
use ros1_bridge.Prelude.Int.{ℤ}
use ros1_bridge.Ros.{Ros}
use ros1_bridge.Factory.Forward.{
  ServiceRelay, wait, send, take_response, forward_typed, forward_1_to_2,
}

module _ {ros : Ros} (relay : ServiceRelay ros) where
  -- The rounds from one state to another: each but the last has found no service and rclcpp still
  -- running. The last has found the service, or rclcpp stopped.
  pub data Waited (client : ros.Ros2Client) : ros.World → Bool → ros.World → Type 0 where
    found :
        {w after : ros.World}
        → relay.wait_for_service client w ≡ (ok true, after)
        → Waited client w true after
    stopped :
        {w between after : ros.World}
        → relay.wait_for_service client w ≡ (ok false, between)
        → relay.is_ok between ≡ (ok false, after)
        → Waited client w false after
    goes_on :
        {w between next after : ros.World} {b : Bool}
        → relay.wait_for_service client w ≡ (ok false, between)
        → relay.is_ok between ≡ (ok true, next)
        → Waited client next b after
        → Waited client w b after

  -- The calls that a forwarded call has made, one after the other, each in the state that the one
  -- before it has left, by what it returns.
  pub data Forwarded (client : ros.Ros2Client) (request1 : relay.Request1) (timeout : ℤ)
      (w : ros.World) : Option relay.Response1 → ros.World → Type 0 where
    other_type : relay.is_typed client ≡ false → Forwarded client request1 timeout w none w
    no_service :
        {request2 : relay.Request2} {w1 w2 : ros.World}
        → relay.is_typed client ≡ true
        → relay.request_1_to_2 request1 w ≡ (ok request2, w1)
        → Waited client w1 false w2
        → Forwarded client request1 timeout w none w2
    timed_out :
        {request2 : relay.Request2} {future : relay.Future} {w1 w2 w3 w4 : ros.World}
        → relay.is_typed client ≡ true
        → relay.request_1_to_2 request1 w ≡ (ok request2, w1)
        → Waited client w1 true w2
        → relay.async_send_request client request2 w2 ≡ (ok future, w3)
        → relay.wait_for future timeout w3 ≡ (ok false, w4)
        → Forwarded client request1 timeout w none w4
    answered :
        {request2 : relay.Request2} {future : relay.Future} {response2 : relay.Response2}
        {response1 : relay.Response1} {w1 w2 w3 w4 w5 w6 : ros.World}
        → relay.is_typed client ≡ true
        → relay.request_1_to_2 request1 w ≡ (ok request2, w1)
        → Waited client w1 true w2
        → relay.async_send_request client request2 w2 ≡ (ok future, w3)
        → relay.wait_for future timeout w3 ≡ (ok true, w4)
        → relay.get future w4 ≡ (ok response2, w5)
        → relay.response_2_to_1 response2 w5 ≡ (ok response1, w6)
        → Forwarded client request1 timeout w (some response1) w6

  wait-Waited :
      (fuel : ℕ) (client : ros.Ros2Client) (w : ros.World) (b : Bool) (after : ros.World)
      → wait relay fuel client w ≡ (ok b, after)
      → Waited client w b after
  unfolding wait
  wait-Waited zero client w b after h = cc
  wait-Waited (suc fuel) client w b after h =
      let (there, between, e, rest) = bind_run (relay.wait_for_service client) _ w h in
      ended (wait-Waited fuel client) there between e rest
    where
      ended :
          ((v : ros.World) (c : Bool) (u : ros.World)
            → wait relay fuel client v ≡ (ok c, u)
            → Waited client v c u)
          → (there : Bool) (between : ros.World)
          → relay.wait_for_service client w ≡ (ok there, between)
          → (elim there as (λ _. Exec ros.World Bool) [
            | true ↦ pure true
            | false ↦ (do
              alive ← relay.is_ok
              elim alive [ true ↦ wait relay fuel client | false ↦ pure false ])
          ])
              between
            ≡ (ok b, after)
          → Waited client w b after
      ended again true between e rest =
          subst (λ c. Waited client w c after) (ok_value (ap (λ x. x.0) rest))
            (found (e ∙ ap (λ x. (ok true, x.1)) rest))
      ended again false between e rest =
          let (alive, next, f, last) = bind_run relay.is_ok _ between rest in
          checked again between e alive next f last
        where
          checked :
              ((v : ros.World) (c : Bool) (u : ros.World)
                → wait relay fuel client v ≡ (ok c, u)
                → Waited client v c u)
              → (between : ros.World) → relay.wait_for_service client w ≡ (ok false, between)
              → (alive : Bool) (next : ros.World) → relay.is_ok between ≡ (ok alive, next)
              → (elim alive as (λ _. Exec ros.World Bool) [
                | true ↦ wait relay fuel client
                | false ↦ pure false
              ])
                  next
                ≡ (ok b, after)
              → Waited client w b after
          checked again between e true next f last = goes_on e f (again next b after last)
          checked again between e false next f last =
              subst (λ c. Waited client w c after) (ok_value (ap (λ x. x.0) last))
                (stopped e (f ∙ ap (λ x. (ok false, x.1)) last))

  -- The rest of the call once the service has been found.
  sent-Forwarded :
      (client : ros.Ros2Client) (request1 : relay.Request1) (request2 : relay.Request2)
      (timeout : ℤ) (w w1 w2 after : ros.World) (r : Option relay.Response1)
      → relay.is_typed client ≡ true
      → relay.request_1_to_2 request1 w ≡ (ok request2, w1)
      → Waited client w1 true w2
      → send relay client request2 timeout true w2 ≡ (ok r, after)
      → Forwarded client request1 timeout w r after
  unfolding send take_response
  sent-Forwarded client request1 request2 timeout w w1 w2 after r typed translated waited h =
      let (future, w3, sent, rest) = bind_run (relay.async_send_request client request2) _ w2 h in
      let (ready, w4, e, last) = bind_run (relay.wait_for future timeout) _ w3 rest in
      taken future w3 sent ready w4 e last
    where
      taken :
          (future : relay.Future) (w3 : ros.World)
          → relay.async_send_request client request2 w2 ≡ (ok future, w3)
          → (ready : Bool) (w4 : ros.World) → relay.wait_for future timeout w3 ≡ (ok ready, w4)
          → take_response relay future ready w4 ≡ (ok r, after)
          → Forwarded client request1 timeout w r after
      taken future w3 sent false w4 e last =
          subst (λ x. Forwarded client request1 timeout w x after) (ok_value (ap (λ x. x.0) last))
            (timed_out typed translated waited sent (e ∙ ap (λ x. (ok false, x.1)) last))
      taken future w3 sent true w4 e last =
          let (response2, w5, got, more) = bind_run (relay.get future) _ w4 last in
          let (response1, w6, back, end) = bind_run (relay.response_2_to_1 response2) _ w5 more in
          subst (λ x. Forwarded client request1 timeout w x after) (ok_value (ap (λ x. x.0) end))
            (answered typed translated waited sent e got (back ∙ ap (λ x. (ok response1, x.1)) end))

  waited-Forwarded :
      (client : ros.Ros2Client) (request1 : relay.Request1) (request2 : relay.Request2)
      (timeout : ℤ) (w w1 w2 after : ros.World) (there : Bool) (r : Option relay.Response1)
      → relay.is_typed client ≡ true
      → relay.request_1_to_2 request1 w ≡ (ok request2, w1)
      → Waited client w1 there w2
      → send relay client request2 timeout there w2 ≡ (ok r, after)
      → Forwarded client request1 timeout w r after
  unfolding send
  waited-Forwarded client request1 request2 timeout w w1 w2 after true r typed translated waited h =
      sent-Forwarded client request1 request2 timeout w w1 w2 after r typed translated waited h
  waited-Forwarded client request1 request2 timeout w w1 w2 after false r typed translated waited
        h =
      let here : w2 ≡ after = ap (λ x. x.1) h in
      subst (λ x. Forwarded client request1 timeout w x after) (ok_value (ap (λ x. x.0) h))
        (no_service typed translated (subst (Waited client w1 false) here waited))

  -- A call of `forward_1_to_2` that returns has made its calls in this order: it translates the
  -- request, waits in rounds for the service, sends, waits for the future with the timeout, takes
  -- the response and translates it back. It returns with a response just where each of them gave its
  -- answer, and then with the translation of the one that the service gave within the timeout; it
  -- returns without one where the client is of another type, rclcpp has stopped in the rounds or the
  -- future was not ready in time, and makes none of the later calls then.
  pub forward_1_to_2-Forwarded :
      (fuel : ℕ) (client : ros.Ros2Client) (request1 : relay.Request1) (timeout : ℤ)
      (r : Option relay.Response1) (w after : ros.World)
      → forward_1_to_2 relay fuel client request1 timeout w ≡ (ok r, after)
      → Forwarded client request1 timeout w r after
  unfolding forward_1_to_2 forward_typed
  forward_1_to_2-Forwarded fuel client request1 timeout r w after h =
      elim (Bool-cases (relay.is_typed client)) [
        | inr other ↦
            let none_given : (ok none, w) ≡ (ok r, after) = rw (other, forward_1_to_2) at h in
            subst (λ x. Forwarded client request1 timeout w x after)
              (ok_value (ap (λ x. x.0) none_given))
              (subst (Forwarded client request1 timeout w none) (ap (λ x. x.1) none_given)
                (other_type other))
        | inl typed ↦
            let run : forward_typed relay fuel client request1 timeout w ≡ (ok r, after) =
              rw (typed, forward_1_to_2) at h in
            let (request2, w1, translated, rest) =
              bind_run (relay.request_1_to_2 request1) _ w run in
            let (there, w2, e, last) = bind_run (wait relay fuel client) _ w1 rest in
            waited-Forwarded client request1 request2 timeout w w1 w2 after there r typed translated
              (wait-Waited fuel client w1 there w2 e) last
      ]
