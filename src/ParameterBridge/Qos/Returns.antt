-- ===== src/ParameterBridge/Qos/Returns.antt =====
-- When `qos_from_params` returns.
use ros1_bridge.Prelude.{
  ℕ, String, ◌≡◌, refl, Bool, true, false, ◌==◌, if◌then◌else◌, arith, ==_refl, Bool-cases, inl,
  inr,
}
use ros1_bridge.Prelude.Exec.{Result, ok, throw, runtime_error, other}
use ros1_bridge.Prelude.Int.{ℤ}
use ros1_bridge.Ros.{Ros}
use ros1_bridge.ParameterBridge.{XmlRpc, xml_rpc_exception}
use ros1_bridge.ParameterBridge.Qos.{
  QosSetters, then_do, caught, member_string, member_int, set_history, set_reliability,
  set_durability, read_duration, set_duration, set_liveliness_of, set_liveliness, where_set,
  qos_from_params,
}

-- A value, a `runtime_error` or an XmlRpcException.
pub data IsXml {A : Type 0} : Result A → Type 0 where
  is_value : (a : A) → IsXml (ok a)
  is_runtime_error : (what : String) → IsXml (throw (runtime_error what))
  is_xml_rpc_exception : IsXml (throw (other xml_rpc_exception))

abbrev pub Returns : {A : Type 0} → Result A → Type 0
Returns {A} r = (a : A) × (r ≡ ok a)

caught-Returns : {A : Type 0} (before : A) (r : Result A) → IsXml r → Returns (caught before r)
unfolding caught
caught-Returns before (ok a) h = (a, refl)
caught-Returns before (throw (runtime_error what)) h = (before, refl)
caught-Returns before (throw e) (is_xml_rpc_exception) =
    (before, rw (==_refl xml_rpc_exception) refl)

then_do-IsXml :
    {A B : Type 0} (r : Result A) (f : A → Result B)
    → IsXml r
    → ((a : A) → IsXml (f a))
    → IsXml (then_do r f)
then_do-IsXml (ok a) f h k = k a
then_do-IsXml (throw e) f (is_runtime_error what) k = is_runtime_error what
then_do-IsXml (throw e) f is_xml_rpc_exception k = is_xml_rpc_exception

then_do-Returns :
    {A B : Type 0} (r : Result A) (f : A → Result B)
    → Returns r
    → ((a : A) → Returns (f a))
    → Returns (then_do r f)
then_do-Returns (ok a) f h k = k a
then_do-Returns (throw e) f h k = absurd (ground arith)

if-Returns :
    {A : Type 0} (b : Bool) (x y : Result A)
    → (b ≡ true → Returns x)
    → Returns y
    → Returns (if b then x else y)
if-Returns true x y h k = h refl
if-Returns false x y h k = k

module _ (ros : Ros) (qos : QosSetters ros) (xml : XmlRpc) where
  -- Access to members, casts and durations throw nothing but what the code catches.
  pub record IsRegular : Type 0 where
    pub members : (key : String) (value : xml.Value) → IsXml (xml.member key value)
    pub texts : (value : xml.Value) → IsXml (xml.as_string value)
    pub ints : (value : xml.Value) → IsXml (xml.as_int value)
    pub durations : (secs : ℤ) (nsecs : ℕ) → IsXml (qos.duration secs nsecs)

  -- The three policies that are read outside of a try block are texts, where they are given, the
  -- depth is an integer, and the member for the liveliness can be accessed.
  pub record IsReadable (params : xml.Value) : Type 0 where
    pub history :
        xml.has_member "history" params ≡ true
        → Returns (member_string ros qos xml "history" params)
    pub depth :
        xml.has_member "depth" params ≡ true → Returns (member_int ros qos xml "depth" params)
    pub reliability :
        xml.has_member "reliability" params ≡ true
        → Returns (member_string ros qos xml "reliability" params)
    pub durability :
        xml.has_member "durability" params ≡ true
        → Returns (member_string ros qos xml "durability" params)
    pub liveliness :
        xml.has_member "liveliness" params ≡ true → Returns (xml.member "liveliness" params)

  where_set-Returns :
      (key : String) (set : xml.Value → ros.Qos → Result ros.Qos) (params : xml.Value) (q : ros.Qos)
      → (xml.has_member key params ≡ true → Returns (set params q))
      → Returns (where_set ros qos xml key set params q)
  unfolding where_set
  where_set-Returns key set params q h = elim (Bool-cases (xml.has_member key params)) [
    | inl e ↦ rw (e, where_set) (h e)
    | inr e ↦ rw (e, where_set) (q, refl)
  ]

  set_duration-Returns :
      IsRegular
      → (key : String) (set : qos.Duration → ros.Qos → ros.Qos) (params : xml.Value) (q : ros.Qos)
      → Returns (set_duration ros qos xml key set params q)
  unfolding set_duration read_duration
  set_duration-Returns regular key set params q = caught-Returns q _ (
      then_do-IsXml _ _
        (then_do-IsXml _ _ (regular.members key params) λ value.
          then_do-IsXml _ _ (then_do-IsXml _ _ (regular.members "secs" value) regular.ints) λ secs.
            then_do-IsXml _ _ (then_do-IsXml _ _ (regular.members "nsecs" value) regular.ints)
              λ nsecs. regular.durations secs _)
        λ dur. is_value _)

  set_history-Returns :
      (params : xml.Value) (q : ros.Qos)
      → IsReadable params
      → Returns (member_string ros qos xml "history" params)
      → Returns (set_history ros qos xml params q)
  unfolding set_history
  set_history-Returns params q readable h = then_do-Returns _ _ h λ history.
      if-Returns (history == "keep_all") _ _ (λ e. (_, refl))
        (if-Returns (history == "keep_last") _ _
          (λ e.
            if-Returns (xml.has_member "depth" params) _ _
              (λ given. then_do-Returns _ _ (readable.depth given) λ depth. (_, refl)) (_, refl))
          (_, refl))

  set_liveliness_of-Returns :
      IsRegular
      → (value : xml.Value) (q : ros.Qos) → Returns (set_liveliness_of ros qos xml value q)
  unfolding set_liveliness_of
  set_liveliness_of-Returns regular value q =
      if-Returns (xml.is_int value) _ _
        (λ e. caught-Returns q _ (then_do-IsXml _ _ (regular.ints value) λ number. is_value _))
        (if-Returns (xml.is_string value) _ _
          (λ e. caught-Returns q _ (then_do-IsXml _ _ (regular.texts value) λ name. is_value _))
          (_, refl))

  -- Where access to members, casts and durations throw nothing but a `runtime_error` or an
  -- XmlRpcException, the policies for history, reliability and durability are texts where they are
  -- given, and likewise the depth is an integer and the liveliness can be accessed,
  -- `qos_from_params` returns, whatever stands in the deadline, the lifespan, the liveliness and
  -- its lease duration.
  pub qos_from_params-Returns :
      (params : xml.Value)
      → IsRegular
      → IsReadable params
      → Returns (qos_from_params ros qos xml params)
  unfolding qos_from_params set_reliability set_durability set_liveliness
  qos_from_params-Returns params regular readable =
      if-Returns (xml.is_struct params) _ _
        (λ e.
          then_do-Returns _ _
            (where_set-Returns "history" _ params _
              λ given. set_history-Returns params _ readable (readable.history given))
            λ q1.
              then_do-Returns _ _
                (where_set-Returns "reliability" _ params q1
                  λ given. then_do-Returns _ _ (readable.reliability given) λ r. (_, refl))
                λ q2.
                  then_do-Returns _ _
                    (where_set-Returns "durability" _ params q2
                      λ given. then_do-Returns _ _ (readable.durability given) λ r. (_, refl))
                    λ q3.
                      then_do-Returns _ _
                        (where_set-Returns "deadline" _ params q3
                          λ given. set_duration-Returns regular "deadline" qos.deadline params q3)
                        λ q4.
                          then_do-Returns _ _
                            (where_set-Returns "lifespan" _ params q4 λ given.
                              set_duration-Returns regular "lifespan" qos.lifespan params q4)
                            λ q5.
                              then_do-Returns _ _
                                (where_set-Returns "liveliness" _ params q5 λ given.
                                  then_do-Returns _ _ (readable.liveliness given)
                                    λ value. set_liveliness_of-Returns regular value q5)
                                λ q6.
                                  where_set-Returns "liveliness_lease_duration" _ params q6 λ given.
                                    set_duration-Returns regular "liveliness_lease_duration"
                                      qos.liveliness_lease_duration params q6)
        (_, refl)
