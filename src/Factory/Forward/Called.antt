-- ===== src/Factory/Forward/Called.antt =====
-- Where the answer of `forward_2_to_1` comes from.
use ros1_bridge.Prelude.{◌≡◌, Option, none, some}
use ros1_bridge.Prelude.Exec.{ok, bind_run}
use ros1_bridge.Ros.{Ros}
use ros1_bridge.Factory.Forward.{ServiceRelay, answer_2_to_1, forward_2_to_1}

module _ {ros : Ros} (relay : ServiceRelay ros) where
  -- The response came from the service of ROS 1: it is the translation of the one that the service
  -- gave to the translated request, each call in the state that the one before it has left.
  pub record IsCalled (client : ros.Ros1Client) (request2 : relay.Request2)
      (response2 : relay.Response2) (w after : ros.World) : Type 0 where
    pub request1 : relay.Request1
    pub response1 : relay.Response1
    pub w1 : ros.World
    pub w2 : ros.World
    pub translated : relay.request_2_to_1 request2 w ≡ (ok request1, w1)
    pub called : relay.call client request1 w1 ≡ (ok (some response1), w2)
    pub translated_back : relay.response_1_to_2 response1 w2 ≡ (ok response2, after)

  -- A call of `forward_2_to_1` that returns, instead of throwing, has called the service of ROS 1
  -- with the translated request, and its response is the translation of the one that came back.
  pub forward_2_to_1-IsCalled :
      (client : ros.Ros1Client) (request2 : relay.Request2) (response2 : relay.Response2)
      (w after : ros.World)
      → forward_2_to_1 relay client request2 w ≡ (ok response2, after)
      → IsCalled client request2 response2 w after
  unfolding forward_2_to_1 answer_2_to_1
  forward_2_to_1-IsCalled client request2 response2 w after h =
      let (request1, w1, translated, rest) = bind_run (relay.request_2_to_1 request2) _ w h in
      let (answer, w2, called, last) = bind_run (relay.call client request1) _ w1 rest in
      go request1 w1 translated answer w2 called last
    where
      go :
          (request1 : relay.Request1) (w1 : ros.World)
          → relay.request_2_to_1 request2 w ≡ (ok request1, w1)
          → (answer : Option relay.Response1) (w2 : ros.World)
          → relay.call client request1 w1 ≡ (ok answer, w2)
          → answer_2_to_1 relay client answer w2 ≡ (ok response2, after)
          → IsCalled client request2 response2 w after
      go request1 w1 translated none w2 called last = cc
      go request1 w1 translated (some response1) w2 called last = record {
        request1 = request1;
        response1 = response1;
        w1 = w1;
        w2 = w2;
        translated = translated;
        called = called;
        translated_back = last;
      }
