-- ===== src/ParameterBridge/Main/Parameter.antt =====
-- What the elements of a parameter give.
use ros1_bridge.Prelude.{
  String, ◌≡◌, refl, sym, ap, subst, ◌∙◌, true, false, Option, none, some, List, [], ◌++◌,
  Bool-cases, inl, inr,
}
use ros1_bridge.Prelude.Exec.{Exec, Result, ok, bind_returned, ◌>>=◌}
use ros1_bridge.Ros.{Ros}
use ros1_bridge.Factory.Registry.{Generated}
use ros1_bridge.ParameterBridge.{XmlRpc}
use ros1_bridge.ParameterBridge.Services.{Listed, on_world}

module _ (ros : Ros) (gen : Generated) (xml : XmlRpc)
    (get_param : String → Exec ros.World (Option xml.Value)) where
  -- The bridges that a parameter gives: those of the elements of the array that it is, as `Made`
  -- describes them, and none where it is missing or no array.
  pub data FromParameter {B : Type 0} (Made : List xml.Value → List B → Type 0) (name : String)
      (bridges : List B) : Type 0 where
    missing :
        (w : ros.World)
        → (get_param name w).0 ≡ ok none
        → bridges ≡ []
        → FromParameter Made name bridges
    no_array :
        (w : ros.World) (value : xml.Value)
        → (get_param name w).0 ≡ ok (some value)
        → xml.is_array value ≡ false
        → bridges ≡ []
        → FromParameter Made name bridges
    array :
        (w : ros.World) (value : xml.Value)
        → (get_param name w).0 ≡ ok (some value)
        → xml.is_array value ≡ true
        → Made (xml.elements value) bridges
        → FromParameter Made name bridges

  module _ {B : Type 0} (Made : List xml.Value → List B → Type 0)
      (use_value : Option xml.Value → Exec (Listed B ros.World) (Unit {0})) where
    use_value-FromParameter :
        (name : String) (w : ros.World) (st : Listed B ros.World) (found : Option xml.Value)
        → (get_param name w).0 ≡ ok found
        → st.bridges ≡ []
        → use_value none st ≡ (ok tt, st)
        → ((v : xml.Value) → xml.is_array v ≡ false → use_value (some v) st ≡ (ok tt, st))
        → ((v : xml.Value)
            → xml.is_array v ≡ true
            → (use_value (some v) st).0 ≡ ok tt
            → Made (xml.elements v) (use_value (some v) st).1.bridges)
        → (use_value found st).0 ≡ ok tt
        → FromParameter Made name (use_value found st).1.bridges
    use_value-FromParameter name w st none got empty nothing other makes h =
        missing w got (ap (λ r. r.1.bridges) nothing ∙ empty)
    use_value-FromParameter name w st (some v) got empty nothing other makes h =
        elim (Bool-cases (xml.is_array v)) [
          | inl e ↦ array w v got e (makes v e h)
          | inr e ↦ no_array w v got e (ap (λ r. r.1.bridges) (other v e) ∙ empty)
        ]

    pub parameter_lem :
        (name : String) (w : ros.World)
        → ((st : Listed B ros.World) → use_value none st ≡ (ok tt, st))
        → ((v : xml.Value) (st : Listed B ros.World)
            → xml.is_array v ≡ false
            → use_value (some v) st ≡ (ok tt, st))
        → ((v : xml.Value) (st : Listed B ros.World)
            → xml.is_array v ≡ true
            → st.bridges ≡ []
            → (use_value (some v) st).0 ≡ ok tt
            → Made (xml.elements v) (use_value (some v) st).1.bridges)
        → ((on_world ros gen xml get_param (get_param name) >>= use_value)
            (record { bridges = []; world = w })).0
          ≡ ok tt
        → FromParameter Made name
            ((on_world ros gen xml get_param (get_param name) >>= use_value)
              (record { bridges = []; world = w })).1.bridges
    parameter_lem name w nothing other makes h =
        let start : Listed B ros.World = record { bridges = []; world = w } in
        let (found, got, rest) =
          bind_returned (on_world ros gen xml get_param (get_param name)) use_value start h in
        let there : Listed B ros.World = record { bridges = []; world = (get_param name w).1 } in
        subst (λ r. FromParameter Made name r.1.bridges) (sym rest)
          (use_value-FromParameter name w there found got refl (nothing there)
            (λ v e. other v there e) (λ v e k. makes v there e refl k)
            (sym (ap (λ r. r.0) rest) ∙ h))

    -- A loop that starts with no bridges.
    pub looped :
        (values : List xml.Value) (st : Listed B ros.World)
        (loop r : Result (Unit {0}) × Listed B ros.World)
        → r ≡ loop
        → st.bridges ≡ []
        → (loop.0 ≡ ok tt → (new : List B) × Made values new × (loop.1.bridges ≡ st.bridges ++ new))
        → r.0 ≡ ok tt
        → Made values r.1.bridges
    looped values st loop r same empty makes h =
        let (new, made, added) = makes (sym (ap (λ x. x.0) same) ∙ h) in
        subst (Made values) (sym (ap (λ x. x.1.bridges) same ∙ added ∙ ap (λ l. l ++ new) empty))
          made
