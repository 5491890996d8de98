-- ===== src/DynamicBridge/ServiceInfo.antt =====
-- `get_ros1_service_info` in src/dynamic_bridge.cpp. The transport and the header format are
-- roscpp's and come as the argument `Network`; what is printed is left out.
pub mod Probe
pub mod Outcome
use ros1_bridge.Prelude.{
  ℕ, suc, ◌+◌, ◌*◌, ◌/◌, ◌%◌, ◌^◌, String, Bool, true, false, if◌then◌else◌, Option, none, some,
  List, [], ◌∷◌, ◌++◌, length,
}
use ros1_bridge.Prelude.Exec.{Exec, Result, ok, throw, undefined, pure, ◌>>=◌, ◌>>◌}
use ros1_bridge.Prelude.Int.{ℤ, pos, negsuc, nat_eq}
use ros1_bridge.StdMap.{StdMap, find, insert, erase}
use ros1_bridge.Text.{find_slash, substr_to, substr_from}
use ros1_bridge.DynamicBridge.Services.{Details}

pub record Network (World : Type 0) : Type 0 where
  -- ros::this_node::getName()
  pub node_name : String
  -- ros::ServiceManager::lookupService: the host and the port.
  pub lookup_service : String → Exec World (Option (String × ℕ))
  -- ros::TransportTCP. `read` gives the count that it returns, and the bytes.
  pub connect : String → ℕ → Exec World Bool
  pub write : List ℕ → Exec World (Unit {0})
  pub read : ℕ → Exec World (ℤ × List ℕ)
  pub close : Exec World (Unit {0})
  -- ros::Header::write and ros::Header::parse
  pub header_write : StdMap String → List ℕ
  pub header_parse : List ℕ → Option (StdMap String)

-- A uint32_t in memory, lowest byte first.
abbrev pub bytes_of_u32 : ℕ → List ℕ
bytes_of_u32 n = (n % 256) ∷ (n / 256 % 256) ∷ (n / 65536 % 256) ∷ (n / 16777216 % 256) ∷ []

unfoldable pub u32_of_bytes : List ℕ → ℕ
u32_of_bytes [] = 0
u32_of_bytes (b ∷ bs) = b + 256 * u32_of_bytes bs

-- `read != length` for the count that `read` returned.
abbrev pub is_count : ℤ → ℕ → Bool
is_count (pos n) m = nat_eq n m
is_count (negsuc n) m = false

module _ {World : Type 0} (net : Network World) where
  -- `message`: the length of the header, and the header.
  unfoldable pub probe_message : String → List ℕ
  probe_message name =
      let header : StdMap String =
        insert "callerid" net.node_name
          (insert "service" name (insert "md5sum" "*" (insert "probe" "1" []))) in
      let buffer = net.header_write header in bytes_of_u32 (length buffer) ++ buffer

  unfoldable pub check_response : ℕ → ℤ × List ℕ → Option (List ℕ)
  check_response length (read, response) = if is_count read length then some response else none

  unfoldable pub read_body : ℤ × List ℕ → Exec World (Option (List ℕ))
  read_body (read, bytes) =
      let length = u32_of_bytes bytes in
      if is_count read 4
      then (do body ← net.read length; pure (check_response length body))
      else pure none

  -- The response to the message, if it was read.
  unfoldable pub read_response : Exec World (Option (List ℕ))
  read_response = do head ← net.read 4; read_body head

  unfoldable pub talk : String → Bool → Exec World (Option (List ℕ))
  talk name false = pure none
  talk name true = do net.write (probe_message name); read_response

  -- The scope guard closes the transport, also where the rest throws.
  unfoldable pub with_transport : Exec World (Option (List ℕ)) → Exec World (Option (List ℕ))
  with_transport m w = let (r, w') = m w in (do net.close; λ w''. (r, w'')) w'

  unfoldable pub probe_at : String → Option (String × ℕ) → Exec World (Option (List ℕ))
  probe_at name none = pure none
  probe_at name (some (host, port)) =
      with_transport (do connected ← net.connect host port; talk name connected)

  unfoldable pub probe : String → Exec World (Option (List ℕ))
  probe name = do found ← net.lookup_service name; probe_at name found

-- ros1_services[key] for a service whose header gives its type.
abbrev pub typed_details : String → ℕ → Details
typed_details type position =
    insert "name" (substr_from (suc position) type)
      (insert "package" (substr_to position type) (insert "type" type []))

-- What is stored for the header of a response. Without a slash in the type the iterators that
-- the code computes lie outside the text.
unfoldable pub store_type : String → Option String → StdMap Details → Result (StdMap Details)
store_type name none services = ok (erase name services)
store_type name (some type) services = elim (find_slash type) [
  | none ↦ throw undefined
  | some position ↦ ok (insert name (typed_details type position) services)
]

unfoldable pub store_header :
    String → Option (StdMap String) → StdMap Details → Result (StdMap Details)
store_header name none services = ok (insert name [] services)
store_header name (some header) services =
    store_type name (find "type" header) (insert name [] services)

abbrev pub lift {ℓ} : {W A : Type ℓ} → Result A → Exec W A
lift r w = (r, w)

module _ {World : Type 0} (net : Network World) where
  unfoldable pub store_response :
      String → StdMap Details → Option (List ℕ) → Exec World (StdMap Details)
  store_response name services none = pure services
  store_response name services (some response) =
      lift (store_header name (net.header_parse response) services)

  unfoldable pub get_ros1_service_info : String → StdMap Details → Exec World (StdMap Details)
  get_ros1_service_info name services = do
    response ← probe net name
    store_response name services response
