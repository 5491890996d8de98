-- ===== src/ParameterBridge/Topics/Entries.antt =====
-- What the values of an array of topics say, and what is created for them.
use ros1_bridge.Prelude.{
  ℕ, ◌-◌, ◌^◌, String, ◌≡◌, ◌≢◌, refl, subst, true, false, Bool-cases, inl, inr, arith,
}
use ros1_bridge.Prelude.Exec.{Exception, Result, ok, throw, Result-cases}
use ros1_bridge.Prelude.Int.{ℤ, pos, negsuc, nat_eq}
use ros1_bridge.Ros.{Ros}
use ros1_bridge.Factory.Registry.{Generated}
use ros1_bridge.Bridge.{
  BridgeHandles, create_bidirectional_bridge, create_bidirectional_bridge_of_queue_size,
}
use ros1_bridge.ParameterBridge.{XmlRpc}
use ros1_bridge.ParameterBridge.Services.{text_at}
use ros1_bridge.ParameterBridge.Services.Entries.{TextAt, text_at-TextAt}
use ros1_bridge.ParameterBridge.Qos.{QosSetters, to_size_t, then_do, qos_from_params}
use ros1_bridge.ParameterBridge.Topics.{
  TopicEntry, read_topic, create_handles, queue_size_or_default,
}

module _ (xml : XmlRpc) where
  -- The number of a member, or the exception of its access or of its cast.
  pub data NumberAt (key : String) (value : xml.Value) : Result ℤ → Type 0 where
    no_member : {e : Exception} → xml.member key value ≡ throw e → NumberAt key value (throw e)
    no_number :
        {v : xml.Value} {e : Exception}
        → xml.member key value ≡ ok v
        → xml.as_int v ≡ throw e
        → NumberAt key value (throw e)
    is_number :
        {v : xml.Value} {i : ℤ}
        → xml.member key value ≡ ok v
        → xml.as_int v ≡ ok i
        → NumberAt key value (ok i)

  -- The size of a queue: 100 for 0, and a negative number wraps around.
  pub data IsQueueSize : ℤ → ℕ → Type 0 where
    hundred : IsQueueSize (pos 0) 100
    given : (n : ℕ) → n ≢ 0 → IsQueueSize (pos n) n
    wrapped : (n : ℕ) → 2 ^ 64 - 1 - n ≢ 0 → IsQueueSize (negsuc n) (2 ^ 64 - 1 - n)
    wrapped_to_zero : (n : ℕ) → 2 ^ 64 - 1 - n ≡ 0 → IsQueueSize (negsuc n) 100

  -- The topic, the type and the queue size that a value gives, or the exception of the first of its
  -- three members that cannot be read.
  pub data ReadsTopic (value : xml.Value) : Result TopicEntry → Type 0 where
    no_topic : {e : Exception} → TextAt xml "topic" value (throw e) → ReadsTopic value (throw e)
    no_type :
        {name : String} {e : Exception}
        → TextAt xml "topic" value (ok name)
        → TextAt xml "type" value (throw e)
        → ReadsTopic value (throw e)
    no_size :
        {name type : String} {e : Exception}
        → TextAt xml "topic" value (ok name)
        → TextAt xml "type" value (ok type)
        → NumberAt "queue_size" value (throw e)
        → ReadsTopic value (throw e)
    whole :
        {name type : String} {i : ℤ} {size : ℕ}
        → TextAt xml "topic" value (ok name)
        → TextAt xml "type" value (ok type)
        → NumberAt "queue_size" value (ok i)
        → IsQueueSize i size
        → ReadsTopic value (ok (record { topic_name = name; type_name = type; queue_size = size }))

  number-NumberAt :
      (key : String) (value : xml.Value) (r : Result ℤ)
      → then_do (xml.member key value) xml.as_int ≡ r
      → NumberAt key value r
  number-NumberAt key value r h = elim (Result-cases (xml.member key value)) [
    | inr (e, missing) ↦ subst (NumberAt key value) (rw missing at h) (no_member missing)
    | inl (v, there) ↦ elim (Result-cases (xml.as_int v)) [
      | inr (e, other) ↦ subst (NumberAt key value) (rw (there, other) at h) (no_number there other)
      | inl (i, number) ↦
          subst (NumberAt key value) (rw (there, number) at h) (is_number there number)
    ]
  ]

  size-IsQueueSize : (i : ℤ) → IsQueueSize i (queue_size_or_default (to_size_t i))
  unfolding queue_size_or_default
  size-IsQueueSize (pos n) = elim (Bool-cases (nat_eq n 0)) [
    | inl e ↦
        let zero_size : 0 ≡ n = ground (arith, e) in
        subst (λ m. IsQueueSize (pos m) (queue_size_or_default m)) zero_size hundred
    | inr e ↦ rw (e, queue_size_or_default) (given n (λ h. ground (arith, e, h)))
  ]
  size-IsQueueSize (negsuc n) = elim (Bool-cases (nat_eq (2 ^ 64 - 1 - n) 0)) [
    | inl e ↦ rw (e, queue_size_or_default) (wrapped_to_zero n (ground (arith, e)))
    | inr e ↦ rw (e, queue_size_or_default) (wrapped n (λ h. ground (arith, e, h)))
  ]

  pub read_topic-ReadsTopic : (value : xml.Value) → ReadsTopic value (read_topic xml value)
  unfolding read_topic
  read_topic-ReadsTopic value = elim (Result-cases (text_at xml "topic" value)) [
    | inr (e, h) ↦ rw (h, read_topic) (no_topic (text_at-TextAt xml "topic" value _ h))
    | inl (name, h) ↦ elim (Result-cases (text_at xml "type" value)) [
      | inr (e, k) ↦
          rw (h, k, read_topic)
            (no_type (text_at-TextAt xml "topic" value _ h) (text_at-TextAt xml "type" value _ k))
      | inl (type, k) ↦ elim (Result-cases (then_do (xml.member "queue_size" value) xml.as_int)) [
        | inr (e, l) ↦
            rw (h, k, l, read_topic)
              (no_size (text_at-TextAt xml "topic" value _ h) (text_at-TextAt xml "type" value _ k)
                (number-NumberAt "queue_size" value _ l))
        | inl (i, l) ↦
            rw (h, k, l, read_topic)
              (whole (text_at-TextAt xml "topic" value _ h) (text_at-TextAt xml "type" value _ k)
                (number-NumberAt "queue_size" value _ l) (size-IsQueueSize i))
      ]
    ]
  ]

module _ (ros : Ros) (gen : Generated) (qos : QosSetters ros) (xml : XmlRpc) where
  -- What the creation for a value ends with, and the state after it: without a member "qos" that of a
  -- bridge with the queue size, with one that of a bridge with the queue size and its settings, or
  -- the exception of reading these.
  pub data Creates (value : xml.Value) (entry : TopicEntry) (w : ros.World)
      : Result (BridgeHandles ros) × ros.World → Type 0 where
    plain :
        {r : Result (BridgeHandles ros) × ros.World}
        → xml.has_member "qos" value ≡ false
        → create_bidirectional_bridge_of_queue_size ros gen "" entry.type_name entry.topic_name
            entry.queue_size w
          ≡ r
        → Creates value entry w r
    no_settings :
        {e : Exception}
        → xml.has_member "qos" value ≡ true
        → xml.member "qos" value ≡ throw e
        → Creates value entry w (throw e, w)
    bad_settings :
        {v : xml.Value} {e : Exception}
        → xml.has_member "qos" value ≡ true
        → xml.member "qos" value ≡ ok v
        → qos_from_params ros qos xml v ≡ throw e
        → Creates value entry w (throw e, w)
    with_settings :
        {v : xml.Value} {q : ros.Qos} {r : Result (BridgeHandles ros) × ros.World}
        → xml.has_member "qos" value ≡ true
        → xml.member "qos" value ≡ ok v
        → qos_from_params ros qos xml v ≡ ok q
        → create_bidirectional_bridge ros gen "" entry.type_name entry.topic_name entry.queue_size q
            w
          ≡ r
        → Creates value entry w r

  pub create_handles-Creates :
      (value : xml.Value) (entry : TopicEntry) (w : ros.World)
      → Creates value entry w (create_handles ros gen qos xml value entry w)
  unfolding create_handles
  create_handles-Creates value entry w = elim (Bool-cases (xml.has_member "qos" value)) [
    | inr e ↦ rw (e, create_handles) (plain e refl)
    | inl e ↦ elim (Result-cases (xml.member "qos" value)) [
      | inr (ex, h) ↦ rw (e, h, create_handles) (no_settings e h)
      | inl (v, h) ↦ elim (Result-cases (qos_from_params ros qos xml v)) [
        | inr (ex, k) ↦ rw (e, h, k, create_handles) (bad_settings e h k)
        | inl (q, k) ↦ rw (e, h, k, create_handles) (with_settings e h k refl)
      ]
    ]
  ]
