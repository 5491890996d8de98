-- ===== src/DynamicBridge/ServiceInfo/Probe.antt =====
-- The conversation of `get_ros1_service_info` with a service.
use ros1_bridge.Prelude.{
  ℕ, String, ◌≡◌, ◌≢◌, refl, sym, ap, ◌∙◌, Bool, true, false, Bool-cases, inl, inr, Option, none,
  some, List, [], ◌∷◌, ◌++◌, length, arith, string_discrete,
}
use ros1_bridge.Prelude.Exec.{Exec, ok, returned_as, bind_run, pure, ◌>>=◌}
use ros1_bridge.Prelude.Int.{ℤ, pos, negsuc}
use ros1_bridge.StdMap.{insert}
use ros1_bridge.DynamicBridge.ServiceInfo.{
  Network, probe, probe_at, probe_message, with_transport, talk, read_response, read_body,
  check_response, is_count, bytes_of_u32, u32_of_bytes,
}

module _ {World : Type 0} (net : Network World) where
  -- The header of a probe, behind its length.
  abbrev pub sent_header : String → List ℕ
  sent_header name =
      net.header_write
        (("callerid", net.node_name) ∷ ("md5sum", "*") ∷ ("probe", "1") ∷ ("service", name) ∷ [])

  abbrev pub sent_message : String → List ℕ
  sent_message name = bytes_of_u32 (length (sent_header name)) ++ sent_header name

  -- What goes over an open connection, and what has been read: a length of four bytes, and then as
  -- many bytes as it says. Fewer bytes are no response.
  pub data Talked (name : String) (w : World) : Option (List ℕ) → World → Type 0 where
    no_length :
        {count : ℤ} {bytes : List ℕ} {w1 w2 : World}
        → net.write (sent_message name) w ≡ (ok tt, w1)
        → net.read 4 w1 ≡ (ok (count, bytes), w2)
        → count ≢ pos 4
        → Talked name w none w2
    cut_off :
        {count : ℤ} {bytes response : List ℕ} {w1 w2 w3 : World}
        → net.write (sent_message name) w ≡ (ok tt, w1)
        → net.read 4 w1 ≡ (ok (pos 4, bytes), w2)
        → net.read (u32_of_bytes bytes) w2 ≡ (ok (count, response), w3)
        → count ≢ pos (u32_of_bytes bytes)
        → Talked name w none w3
    whole :
        {bytes response : List ℕ} {w1 w2 w3 : World}
        → net.write (sent_message name) w ≡ (ok tt, w1)
        → net.read 4 w1 ≡ (ok (pos 4, bytes), w2)
        → net.read (u32_of_bytes bytes) w2 ≡ (ok (pos (u32_of_bytes bytes), response), w3)
        → Talked name w (some response) w3

  -- The response of a service, or that there is none; a connection is closed at the end.
  pub data Answered (name : String) (w : World) : Option (List ℕ) → World → Type 0 where
    unknown :
        {after : World} → net.lookup_service name w ≡ (ok none, after) → Answered name w none after
    unreachable :
        {host : String} {port : ℕ} {w1 w2 after : World}
        → net.lookup_service name w ≡ (ok (some (host, port)), w1)
        → net.connect host port w1 ≡ (ok false, w2)
        → net.close w2 ≡ (ok tt, after)
        → Answered name w none after
    talked :
        {host : String} {port : ℕ} {response : Option (List ℕ)} {w1 w2 w3 after : World}
        → net.lookup_service name w ≡ (ok (some (host, port)), w1)
        → net.connect host port w1 ≡ (ok true, w2)
        → Talked name w2 response w3
        → net.close w3 ≡ (ok tt, after)
        → Answered name w response after

  probe_message-sent : (name : String) → probe_message net name ≡ sent_message name
  unfolding probe_message insert string_discrete
  probe_message-sent name = refl

  is_count-pos : (count : ℤ) (n : ℕ) → is_count count n ≡ true → count ≡ pos n
  is_count-pos (pos m) n h = ap pos (ground (arith, h))
  is_count-pos (negsuc m) n h = cc

  not_count-pos : (count : ℤ) (n : ℕ) → is_count count n ≡ false → count ≢ pos n
  not_count-pos (pos m) n h e = ground (arith, h, e)
  not_count-pos (negsuc m) n h e = cc

  body-Talked :
      (name : String) (count : ℤ) (bytes : List ℕ) (r : Option (List ℕ)) (w w1 w2 after : World)
      → net.write (sent_message name) w ≡ (ok tt, w1)
      → net.read 4 w1 ≡ (ok (count, bytes), w2)
      → read_body net (count, bytes) w2 ≡ (ok r, after)
      → Talked name w r after
  unfolding read_body check_response
  body-Talked name count bytes r w w1 w2 after written got h =
      elim (Bool-cases (is_count count 4)) [
        | inl four ↦
            let read : (net.read (u32_of_bytes bytes) >>= λ body.
            pure (check_response net (u32_of_bytes bytes) body))
                  w2
                ≡ (ok r, after) =
              rw (four, read_body) at h in
            let (body, w3, e, last) = bind_run (net.read (u32_of_bytes bytes)) _ w2 read in
            let first = got ∙ ap (λ c. (ok (c, bytes), w2)) (is_count-pos count 4 four) in
            checked bytes w3 body first e last
        | inr other ↦
            returned_as (Talked name w) (rw (other, read_body) at h)
              (no_length written got (not_count-pos count 4 other))
      ]
    where
      checked :
          (bytes : List ℕ) (w3 : World) (body : ℤ × List ℕ)
          → net.read 4 w1 ≡ (ok (pos 4, bytes), w2)
          → net.read (u32_of_bytes bytes) w2 ≡ (ok body, w3)
          → pure {S = World} (check_response net (u32_of_bytes bytes) body) w3 ≡ (ok r, after)
          → Talked name w r after
      checked bytes w3 (m, response) first e last =
          elim (Bool-cases (is_count m (u32_of_bytes bytes))) [
            | inl all ↦ returned_as (Talked name w) (rw (all, check_response) at last) (
                whole written first
                  (e ∙ ap (λ c. (ok (c, response), w3)) (is_count-pos m (u32_of_bytes bytes) all)))
            | inr short ↦
                returned_as (Talked name w) (rw (short, check_response) at last)
                  (cut_off written first e (not_count-pos m (u32_of_bytes bytes) short))
          ]

  talk-Talked :
      (name : String) (r : Option (List ℕ)) (w after : World)
      → talk net name true w ≡ (ok r, after)
      → Talked name w r after
  unfolding talk read_response
  talk-Talked name r w after h =
      let (_, w1, written, rest) = bind_run (net.write (probe_message net name)) _ w h in
      let ((count, bytes), w2, got, last) = bind_run (net.read 4) (read_body net) w1 rest in
      body-Talked name count bytes r w w1 w2 after
        (ap (λ m. net.write m w) (sym (probe_message-sent name)) ∙ written) got last

  -- A part under the scope guard has returned before the transport is closed.
  guarded :
      (m : Exec World (Option (List ℕ))) (r : Option (List ℕ)) (w after : World)
      → with_transport net m w ≡ (ok r, after)
      → (w1 : World) × (m w ≡ (ok r, w1)) × (net.close w1 ≡ (ok tt, after))
  unfolding with_transport
  guarded m r w after h =
      let (_, w2, closed, last) = bind_run net.close (λ _ w''. ((m w).0, w'')) (m w).1 h in
      ((m w).1, ap (λ x. (x.0, (m w).1)) last, closed ∙ ap (λ x. (ok tt, x.1)) last)

  pub probe-Answered :
      (name : String) (r : Option (List ℕ)) (w after : World)
      → probe net name w ≡ (ok r, after)
      → Answered name w r after
  unfolding probe probe_at talk
  probe-Answered name r w after h =
      let (place, w1, found, rest) = bind_run (net.lookup_service name) (probe_at net name) w h in
      at place w1 found rest
    where
      connected :
          (host : String) (port : ℕ) (w1 : World)
          → net.lookup_service name w ≡ (ok (some (host, port)), w1)
          → (up : Bool) (w2 w3 : World) → net.connect host port w1 ≡ (ok up, w2)
          → talk net name up w2 ≡ (ok r, w3)
          → net.close w3 ≡ (ok tt, after)
          → Answered name w r after
      connected host port w1 found true w2 w3 e said closed =
          talked found e (talk-Talked name r w2 w3 said) closed
      connected host port w1 found false w2 w3 e said closed =
          returned_as (λ x v. net.close v ≡ (ok tt, after) → Answered name w x after) said
            (unreachable found e) closed

      at :
          (place : Option (String × ℕ)) (w1 : World)
          → net.lookup_service name w ≡ (ok place, w1)
          → probe_at net name place w1 ≡ (ok r, after)
          → Answered name w r after
      at none w1 found rest = returned_as (Answered name w) rest (unknown found)
      at (some (host, port)) w1 found rest =
          let (w3, run, closed) = guarded _ r w1 after rest in
          let (up, w2, e, said) = bind_run (net.connect host port) (talk net name) w1 run in
          connected host port w1 found up w2 w3 e said closed
