-- ===== src/Factory/Forward.antt =====
-- include/ros1_bridge/factory.hpp: `forward_2_to_1` and `forward_1_to_2`, which pass the call of a
-- service on to the other side. Log output is left out.
pub mod Outcome
pub mod Called
pub mod Waiting
use ros1_bridge.Prelude.{ℕ, zero, suc, String, ◌<>◌, Bool, true, false, Option, none, some}
use ros1_bridge.Prelude.Exec.{Exec, runtime_error, out_of_fuel, pure, raise, ◌>>=◌, ◌>>◌}
use ros1_bridge.Prelude.Int.{ℤ}
use ros1_bridge.Ros.{Ros}

-- What the two functions use of the middlewares and of the code that is generated for a pair of
-- service types.
pub record ServiceRelay (ros : Ros) : Type 1 where
  pub Request1 : Type 0
  pub Response1 : Type 0
  pub Request2 : Type 0
  pub Response2 : Type 0
  pub Future : Type 0
  -- The functions translate_1_to_2 and translate_2_to_1.
  pub request_1_to_2 : Request1 → Exec ros.World Request2
  pub response_1_to_2 : Response1 → Exec ros.World Response2
  pub request_2_to_1 : Request2 → Exec ros.World Request1
  pub response_2_to_1 : Response2 → Exec ros.World Response1
  -- ros::ServiceClient: the response where `call` returns true, and getService.
  pub call : ros.Ros1Client → Request1 → Exec ros.World (Option Response1)
  pub get_service : ros.Ros1Client → String
  -- Whether std::dynamic_pointer_cast to the client for this type succeeds.
  pub is_typed : ros.Ros2Client → Bool
  -- wait_for_service for a second, rclcpp::ok, async_send_request, and wait_for and get of the
  -- future, where `true` says that it is ready.
  pub wait_for_service : ros.Ros2Client → Exec ros.World Bool
  pub is_ok : Exec ros.World Bool
  pub async_send_request : ros.Ros2Client → Request2 → Exec ros.World Future
  pub wait_for : Future → ℤ → Exec ros.World Bool
  pub get : Future → Exec ros.World Response2

module _ {ros : Ros} (relay : ServiceRelay ros) where
  unfoldable pub answer_2_to_1 :
      ros.Ros1Client → Option relay.Response1 → Exec ros.World relay.Response2
  answer_2_to_1 client (some response1) = relay.response_1_to_2 response1
  answer_2_to_1 client none =
      raise
        (runtime_error ("Failed to get response from ROS 1 service " <> relay.get_service client))

  -- The response that is filled in.
  unfoldable pub forward_2_to_1 : ros.Ros1Client → relay.Request2 → Exec ros.World relay.Response2
  forward_2_to_1 client request2 = do
    request1 ← relay.request_2_to_1 request2
    response1 ← relay.call client request1
    answer_2_to_1 client response1

  -- The loop that waits for the service, with the fuel for its rounds: whether there is one.
  unfoldable pub wait : ℕ → ros.Ros2Client → Exec ros.World Bool
  wait zero client = raise out_of_fuel
  wait (suc fuel) client = do
    found ← relay.wait_for_service client
    elim found [
      | true ↦ pure true
      | false ↦ (do
        alive ← relay.is_ok
        elim alive [ true ↦ wait fuel client | false ↦ pure false ])
    ]

  unfoldable pub take_response : relay.Future → Bool → Exec ros.World (Option relay.Response1)
  take_response future false = pure none
  take_response future true = do
    response2 ← relay.get future
    response1 ← relay.response_2_to_1 response2
    pure (some response1)

  unfoldable pub send :
      ros.Ros2Client → relay.Request2 → ℤ → Bool → Exec ros.World (Option relay.Response1)
  send client request2 service_execution_timeout false = pure none
  send client request2 service_execution_timeout true = do
    future ← relay.async_send_request client request2
    ready ← relay.wait_for future service_execution_timeout
    take_response future ready

  unfoldable pub forward_typed :
      ℕ → ros.Ros2Client → relay.Request1 → ℤ → Exec ros.World (Option relay.Response1)
  forward_typed fuel client request1 service_execution_timeout = do
    request2 ← relay.request_1_to_2 request1
    found ← wait fuel client
    send client request2 service_execution_timeout found

  -- The response that is filled in where the function returns true; `none` where it returns false.
  unfoldable pub forward_1_to_2 :
      ℕ → ros.Ros2Client → relay.Request1 → ℤ → Exec ros.World (Option relay.Response1)
  forward_1_to_2 fuel client request1 service_execution_timeout = elim (relay.is_typed client) [
    | false ↦ pure none
    | true ↦ forward_typed fuel client request1 service_execution_timeout
  ]
