-- ===== src/ParameterBridge/Qos.antt =====
-- `qos_from_params` in src/parameter_bridge.cpp. What is printed is left out.
pub mod Returns
use ros1_bridge.Prelude.{
  ℕ, ◌-◌, ◌^◌, String, Bool, true, false, ◌||◌, ◌==◌, if◌then◌else◌, Option, none, some,
}
use ros1_bridge.Prelude.Exec.{Result, ok, throw, Exception, runtime_error, other}
use ros1_bridge.Prelude.Int.{ℤ, pos, negsuc, to_uint32}
use ros1_bridge.Ros.{Ros}
use ros1_bridge.ParameterBridge.{XmlRpc, xml_rpc_exception}

-- The members of rclcpp::QoS that are called here, and rclcpp::Duration.
pub record QosSetters (ros : Ros) : Type 1 where
  pub set_keep_last : ℕ → ros.Qos → ros.Qos
  pub best_effort : ros.Qos → ros.Qos
  pub reliable : ros.Qos → ros.Qos
  pub durability_volatile : ros.Qos → ros.Qos
  pub Duration : Type 0
  pub duration : ℤ → ℕ → Result Duration
  pub deadline : Duration → ros.Qos → ros.Qos
  pub lifespan : Duration → ros.Qos → ros.Qos
  pub liveliness_lease_duration : Duration → ros.Qos → ros.Qos
  -- rmw_qos_liveliness_policy_t, by number.
  pub liveliness : ℤ → ros.Qos → ros.Qos
  pub system_default : ℤ
  pub automatic : ℤ
  pub manual_by_topic : ℤ

-- An int as a size_t.
abbrev pub to_size_t : ℤ → ℕ
to_size_t (pos n) = n
to_size_t (negsuc n) = 2 ^ 64 - 1 - n

abbrev pub then_do {ℓ κ} : {A : Type ℓ} {B : Type κ} → Result A → (A → Result B) → Result B
then_do (ok a) f = f a
then_do (throw e) f = throw e

-- The two catch blocks: the settings stay as they were.
unfoldable pub caught : {A : Type 0} → A → Result A → Result A
caught before (ok after) = ok after
caught before (throw (runtime_error what)) = ok before
caught before (throw (other what)) =
    if what == xml_rpc_exception then ok before else throw (other what)
caught before (throw e) = throw e

module _ (ros : Ros) (qos : QosSetters ros) (xml : XmlRpc) where
  abbrev pub member_string : String → xml.Value → Result String
  member_string key value = then_do (xml.member key value) xml.as_string

  abbrev pub member_int : String → xml.Value → Result ℤ
  member_int key value = then_do (xml.member key value) xml.as_int

  unfoldable pub set_history : xml.Value → ros.Qos → Result ros.Qos
  set_history params q = then_do (member_string "history" params) (λ history.
      if history == "keep_all"
      then ok (ros.keep_all q)
      else if history == "keep_last"
      then (if xml.has_member "depth" params
          then then_do (member_int "depth" params)
              (λ depth. ok (qos.set_keep_last (to_size_t depth) q))
          else ok q)
      else ok q)

  unfoldable pub set_reliability : xml.Value → ros.Qos → Result ros.Qos
  set_reliability params q = then_do (member_string "reliability" params) (λ reliability. ok (
      if reliability == "best_effort"
      then qos.best_effort q
      else if reliability == "reliable"
      then qos.reliable q
      else q))

  unfoldable pub set_durability : xml.Value → ros.Qos → Result ros.Qos
  set_durability params q = then_do (member_string "durability" params) (λ durability. ok (
      if durability == "transient_local"
      then ros.transient_local q
      else if durability == "volatile"
      then qos.durability_volatile q
      else q))

  -- rclcpp::Duration of the member's "secs" and "nsecs". The second is passed as a uint32_t.
  unfoldable pub read_duration : String → xml.Value → Result qos.Duration
  read_duration key params = then_do (xml.member key params) (λ value.
      then_do (member_int "secs" value)
        (λ secs. then_do (member_int "nsecs" value) (λ nsecs. qos.duration secs (to_uint32 nsecs))))

  unfoldable pub set_duration :
      String → (qos.Duration → ros.Qos → ros.Qos) → xml.Value → ros.Qos → Result ros.Qos
  set_duration key set params q =
      caught q (then_do (read_duration key params) (λ dur. ok (set dur q)))

  unfoldable pub named_liveliness : String → ℤ
  named_liveliness name =
      if name == "LIVELINESS_SYSTEM_DEFAULT" || name == "liveliness_system_default"
      then qos.system_default
      else if name == "LIVELINESS_AUTOMATIC" || name == "liveliness_automatic"
      then qos.automatic
      else if name == "LIVELINESS_MANUAL_BY_TOPIC" || name == "liveliness_manual_by_topic"
      then qos.manual_by_topic
      else qos.system_default

  unfoldable pub set_liveliness_of : xml.Value → ros.Qos → Result ros.Qos
  set_liveliness_of value q =
      if xml.is_int value
      then caught q (then_do (xml.as_int value) (λ number. ok (qos.liveliness number q)))
      else if xml.is_string value
      then caught q
          (then_do (xml.as_string value) (λ name. ok (qos.liveliness (named_liveliness name) q)))
      else ok q

  unfoldable pub set_liveliness : xml.Value → ros.Qos → Result ros.Qos
  set_liveliness params q =
      then_do (xml.member "liveliness" params) (λ value. set_liveliness_of value q)

  -- `if (qos_params.hasMember(key)) { ... }`
  unfoldable pub where_set :
      String → (xml.Value → ros.Qos → Result ros.Qos) → xml.Value → ros.Qos → Result ros.Qos
  where_set key set params q = if xml.has_member key params then set params q else ok q

  unfoldable pub qos_from_params : xml.Value → Result ros.Qos
  qos_from_params params =
      if xml.is_struct params
      then then_do (where_set "history" set_history params (ros.keep_last 10)) (λ q1.
        then_do (where_set "reliability" set_reliability params q1) (λ q2.
          then_do (where_set "durability" set_durability params q2) (λ q3.
            then_do (where_set "deadline" (set_duration "deadline" qos.deadline) params q3) (λ q4.
              then_do (where_set "lifespan" (set_duration "lifespan" qos.lifespan) params q4) (λ q5.
                then_do (where_set "liveliness" set_liveliness params q5) (λ q6.
                  where_set "liveliness_lease_duration"
                    (set_duration "liveliness_lease_duration" qos.liveliness_lease_duration) params
                    q6))))))
      else ok (ros.keep_last 10)
