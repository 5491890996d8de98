-- ===== src/DynamicBridge/ServiceInfo/Outcome.antt =====
-- What `get_ros1_service_info` stores, and how a length is framed.
use ros1_bridge.Prelude.{
  ℕ, suc, ◌<◌, ap, subst, String, ==_refl, ◌<>◌, ◌≡◌, refl, Option, none, some, List, [], arith,
  string_discrete, inl, inr, Option-cases,
}
use ros1_bridge.Prelude.Exec.{ok, throw, undefined, ok_value, bind_run}
use ros1_bridge.StdMap.{StdMap, find, insert, erase}
use ros1_bridge.StdMap.Laws.{find-insert, find-erase}
use ros1_bridge.Text.{find_slash, find_slash-split, find_slash-substr_to, substr_to, substr_from}
use ros1_bridge.DynamicBridge.Services.{Details}
use ros1_bridge.DynamicBridge.ServiceInfo.Probe.{Answered, probe-Answered}
use ros1_bridge.DynamicBridge.ServiceInfo.{
  Network, probe, store_type, store_header, store_response, get_ros1_service_info, typed_details,
  bytes_of_u32, u32_of_bytes,
}

-- A length below 2^32 is read as it was written.
pub u32_of_bytes-bytes_of_u32 : (n : ℕ) → n < 4294967296 → u32_of_bytes (bytes_of_u32 n) ≡ n
unfolding u32_of_bytes
u32_of_bytes-bytes_of_u32 n h = omega arith

-- The details of a type, whose first slash stands between its package and its name.
pub record IsTyped (type : String) (details : Details) : Type 0 where
  pub package_text : String
  pub name_text : String
  pub has_type : find "type" details ≡ some type
  pub has_package : find "package" details ≡ some package_text
  pub has_name : find "name" details ≡ some name_text
  pub split : package_text <> ("/" <> name_text) ≡ type
  pub first_slash : find_slash package_text ≡ none

-- The entry for the service, by the header of the response: no details where it cannot be parsed,
-- none where it has no type, or else the details of the type that it has.
pub data Stored : Option (StdMap String) → Option Details → Type 0 where
  unparsed : Stored none (some [])
  untyped : {header : StdMap String} → find "type" header ≡ none → Stored (some header) none
  typed :
      {header : StdMap String} {type : String} {details : Details}
      → find "type" header ≡ some type
      → IsTyped type details
      → Stored (some header) (some details)

-- The result of probing `name`: without a response, what was there; or else its own entry by the
-- header, and the others as they were.
pub data Probed (parse : List ℕ → Option (StdMap String)) (name : String) (before : StdMap Details)
    : Option (List ℕ) → StdMap Details → Type 0 where
  unanswered : Probed parse name before none before
  answered :
      {response : List ℕ} {after : StdMap Details}
      → Stored (parse response) (find name after)
      → ((other : String) → find other (erase name after) ≡ find other (erase name before))
      → Probed parse name before (some response) after

typed_details-IsTyped :
    (type : String) (position : ℕ)
    → find_slash type ≡ some position
    → IsTyped type (typed_details type position)
unfolding find insert string_discrete
typed_details-IsTyped type position e = record {
  package_text = substr_to position type;
  name_text = substr_from (suc position) type;
  has_type = refl;
  has_package = refl;
  has_name = refl;
  split = find_slash-split type position e;
  first_slash = find_slash-substr_to type position e;
}

-- The other entries, after one was written or removed over the new entry of the service.
written_others :
    (name other : String) (details : Details) (before : StdMap Details)
    → find other (erase name (insert name details (insert name [] before)))
      ≡ find other (erase name before)
written_others name other details before = ground (
  arith,
  find-erase other name (insert name details (insert name [] before)),
  find-erase other name before,
  find-insert other name details (insert name [] before),
  find-insert other name [] before,
)

erased_others :
    (name other : String) (before : StdMap Details)
    → find other (erase name (erase name (insert name [] before))) ≡ find other (erase name before)
erased_others name other before = ground (
  arith,
  find-erase other name (erase name (insert name [] before)),
  find-erase other name before,
  find-erase other name (insert name [] before),
  find-insert other name [] before,
)

new_others :
    (name other : String) (before : StdMap Details)
    → find other (erase name (insert name [] before)) ≡ find other (erase name before)
new_others name other before = ground (
  arith,
  find-erase other name (insert name [] before),
  find-erase other name before,
  find-insert other name [] before,
)

-- What is stored for a header, where the type has a slash.
abbrev Stores : String → Option (StdMap String) → StdMap Details → StdMap Details → Type 0
Stores name header before after =
    Stored header (find name after)
    × ((other : String) → find other (erase name after) ≡ find other (erase name before))

store_type-Stores :
    (name : String) (header : StdMap String) (type : Option String) (before after : StdMap Details)
    → find "type" header ≡ type
    → store_type name type (insert name [] before) ≡ ok after
    → Stores name (some header) before after
unfolding store_type
store_type-Stores name header none before after e h =
    subst (Stores name (some header) before) (ok_value h) (
      rw (find-erase name name (insert name [] before), ==_refl name) (untyped e),
      λ other. erased_others name other before,
    )
store_type-Stores name header (some type) before after e h = elim (Option-cases (find_slash type)) [
  | inl missing ↦ let bad : throw undefined ≡ ok after = rw (missing, store_type) at h in cc
  | inr (n, there) ↦
      let stored : ok (insert name (typed_details type n) (insert name [] before)) ≡ ok after =
        rw (there, store_type) at h in
      subst (Stores name (some header) before) (ok_value stored) (
        rw (find-insert name name (typed_details type n) (insert name [] before), ==_refl name)
            (typed e (typed_details-IsTyped type n there)),
        λ other. written_others name other (typed_details type n) before,
      )
]

store_header-Stores :
    (name : String) (header : Option (StdMap String)) (before after : StdMap Details)
    → store_header name header before ≡ ok after
    → Stores name header before after
unfolding store_header
store_header-Stores name none before after h = subst (Stores name none before) (ok_value h) (
  rw (find-insert name name [] before, ==_refl name) unparsed,
  λ other. new_others name other before,
)
store_header-Stores name (some header) before after h =
    store_type-Stores name header (find "type" header) before after refl h

module _ {World : Type 0} (net : Network World) where
  store_response-Probed :
      (name : String) (before after : StdMap Details) (response : Option (List ℕ)) (w w' : World)
      → store_response net name before response w ≡ (ok after, w')
      → Probed net.header_parse name before response after × (w ≡ w')
  unfolding store_response
  store_response-Probed name before after none w w' h = (
    subst (Probed net.header_parse name before none) (ok_value (ap (λ x. x.0) h)) unanswered,
    ap (λ x. x.1) h,
  )
  store_response-Probed name before after (some response) w w' h =
      let (own, others) =
        store_header-Stores name (net.header_parse response) before after (ap (λ x. x.0) h) in
      (answered own others, ap (λ x. x.1) h)

  -- Where `get_ros1_service_info` returns: it has looked the service up, has sent it a header that
  -- asks for a probe of it behind its length, over a connection that is closed at the end, and has
  -- read a length of four bytes and a response of this length. Without such a response the services
  -- are as they were. With one, the entry of the service has no details where the header in it
  -- cannot be parsed, is removed where the header has no type, and otherwise holds the header's type
  -- and the texts before and behind its first slash as its package and its name; and the entries of
  -- the other services are as they were.
  pub get_ros1_service_info-Probed :
      (name : String) (before after : StdMap Details) (w w' : World)
      → get_ros1_service_info net name before w ≡ (ok after, w')
      → (response : Option (List ℕ)) × Answered net name w response w'
        × Probed net.header_parse name before response after
  unfolding get_ros1_service_info
  get_ros1_service_info-Probed name before after w w' h =
      let (response, w1, probed, rest) =
        bind_run (probe net name) (store_response net name before) w h in
      let (stored, same) = store_response-Probed name before after response w1 w' rest in
      (
        response,
        subst (Answered net name w response) same (probe-Answered net name response w w1 probed),
        stored,
      )
