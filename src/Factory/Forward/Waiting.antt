-- ===== src/Factory/Forward/Waiting.antt =====
-- How long `forward_1_to_2` waits for the service in ROS 2.
use ros1_bridge.Prelude.{ap, ◌∙◌, ℕ, zero, suc, ◌≡◌, refl, Bool, true, false}
use ros1_bridge.Prelude.Exec.{ok, throw, out_of_fuel, bind_thrown, bind-eq_of_returned, ◌>>=◌}
use ros1_bridge.Prelude.Int.{ℤ}
use ros1_bridge.Ros.{Ros}
use ros1_bridge.Factory.Forward.{ServiceRelay, wait, send, forward_typed, forward_1_to_2}

module _ {ros : Ros} (relay : ServiceRelay ros) (client : ros.Ros2Client) where
  -- The calls around the wait return in every state.
  pub record IsResponsive : Type 0 where
    pub request :
        (r : relay.Request1) (w : ros.World)
        → (s : relay.Request2) × ((relay.request_1_to_2 r w).0 ≡ ok s)
    pub response :
        (r : relay.Response2) (w : ros.World)
        → (s : relay.Response1) × ((relay.response_2_to_1 r w).0 ≡ ok s)
    pub sends :
        (r : relay.Request2) (w : ros.World)
        → (f : relay.Future) × ((relay.async_send_request client r w).0 ≡ ok f)
    pub waits :
        (f : relay.Future) (seconds : ℤ) (w : ros.World)
        → (b : Bool) × ((relay.wait_for f seconds w).0 ≡ ok b)
    pub gets :
        (f : relay.Future) (w : ros.World) → (r : relay.Response2) × ((relay.get f w).0 ≡ ok r)

  wait_forever :
      (fuel : ℕ) (w : ros.World)
      → ((v : ros.World) → (relay.wait_for_service client v).0 ≡ ok false)
      → ((v : ros.World) → (relay.is_ok v).0 ≡ ok true)
      → (wait relay fuel client w).0 ≡ throw out_of_fuel
  unfolding wait
  wait_forever zero w never alive = refl
  wait_forever (suc fuel) w never alive =
      let w1 = (relay.wait_for_service client w).1 in
      ap (λ x. x.0)
        (bind-eq_of_returned (relay.wait_for_service client) _ w (never w)
          ∙ bind-eq_of_returned relay.is_ok _ w1 (alive w1))
      ∙ wait_forever fuel (relay.is_ok w1).1 never alive

  -- Where the service never comes up and rclcpp keeps running, a call that is forwarded waits beyond
  -- any fuel, whatever its timeout.
  pub forward_1_to_2_waits :
      (fuel : ℕ) (request1 : relay.Request1) (timeout : ℤ) (w : ros.World)
      → IsResponsive
      → relay.is_typed client ≡ true
      → ((v : ros.World) → (relay.wait_for_service client v).0 ≡ ok false)
      → ((v : ros.World) → (relay.is_ok v).0 ≡ ok true)
      → (forward_1_to_2 relay fuel client request1 timeout w).0 ≡ throw out_of_fuel
  unfolding forward_1_to_2 forward_typed
  forward_1_to_2_waits fuel request1 timeout w responsive typed never alive =
      let (request2, f) = responsive.request request1 w in
      rw
        (
          typed,
          forward_1_to_2,
          bind-eq_of_returned (relay.request_1_to_2 request1)
              (λ request2. do
                found ← wait relay fuel client
                send relay client request2 timeout found)
              w f,
        )
        (bind_thrown (wait relay fuel client) _ (relay.request_1_to_2 request1 w).1
          (wait_forever fuel _ never alive))
