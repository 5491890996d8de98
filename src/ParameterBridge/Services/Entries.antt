-- ===== src/ParameterBridge/Services/Entries.antt =====
-- What the values of an array of services say.
use ros1_bridge.Prelude.{
  String, ◌<>◌, ◌==◌, ◌≡◌, ◌≢◌, sym, ◌∙◌, subst, Bool-cases, inl, inr, Option, none, Option-cases,
  arith, suc,
}
use ros1_bridge.Prelude.Exec.{Exception, Result, ok, throw, Result-cases}
use ros1_bridge.Text.{
  find_slash, find_slash-split, find_slash-substr_to, substr_to, substr_from, no_slash,
}
use ros1_bridge.Factory.{ServiceFactory}
use ros1_bridge.DynamicBridge.Services.{ServiceDirection}
use ros1_bridge.ParameterBridge.{XmlRpc}
use ros1_bridge.ParameterBridge.Services.{Entry, read_entry, text_at, full_type_name, factory_at}

module _ (xml : XmlRpc) where
  -- The text of a member, or the exception of its access or of its cast.
  pub data TextAt (key : String) (value : xml.Value) : Result String → Type 0 where
    no_member : {e : Exception} → xml.member key value ≡ throw e → TextAt key value (throw e)
    no_text :
        {v : xml.Value} {e : Exception}
        → xml.member key value ≡ ok v
        → xml.as_string v ≡ throw e
        → TextAt key value (throw e)
    is_text :
        {v : xml.Value} {s : String}
        → xml.member key value ≡ ok v
        → xml.as_string v ≡ ok s
        → TextAt key value (ok s)

  -- The type of a service with its package, which the type may name already.
  pub data FullType (pkg : String) (type : String) : String → Type 0 where
    named_already : pkg ≡ "" → FullType pkg type type
    joined : pkg ≢ "" → FullType pkg type (pkg <> ("/" <> type))

  -- The service's name and its full type that a value gives, or the exception of the first of its
  -- three members that cannot be read.
  pub data Reads (value : xml.Value) : Result (String × String) → Type 0 where
    no_service : {e : Exception} → TextAt "service" value (throw e) → Reads value (throw e)
    no_type :
        {name : String} {e : Exception}
        → TextAt "service" value (ok name)
        → TextAt "type" value (throw e)
        → Reads value (throw e)
    no_package :
        {name type : String} {e : Exception}
        → TextAt "service" value (ok name)
        → TextAt "type" value (ok type)
        → TextAt "package" value (throw e)
        → Reads value (throw e)
    whole :
        {name type pkg full : String}
        → TextAt "service" value (ok name)
        → TextAt "type" value (ok type)
        → TextAt "package" value (ok pkg)
        → FullType pkg type full
        → Reads value (ok (name, full))

  pub text_at-TextAt :
      (key : String) (value : xml.Value) (r : Result String)
      → text_at xml key value ≡ r
      → TextAt key value r
  unfolding text_at
  text_at-TextAt key value r h = elim (Result-cases (xml.member key value)) [
    | inr (e, missing) ↦ subst (TextAt key value) (rw (missing, text_at) at h) (no_member missing)
    | inl (v, there) ↦ elim (Result-cases (xml.as_string v)) [
      | inr (e, other) ↦
          subst (TextAt key value) (sym other ∙ rw (there, text_at) at h) (no_text there other)
      | inl (s, text) ↦
          subst (TextAt key value) (sym text ∙ rw (there, text_at) at h) (is_text there text)
    ]
  ]

  full_type_name-FullType : (pkg type : String) → FullType pkg type (full_type_name pkg type)
  unfolding full_type_name
  full_type_name-FullType pkg type = elim (Bool-cases (pkg == "")) [
    | inl e ↦ rw (e, full_type_name) (named_already (ground (arith, e)))
    | inr e ↦ rw (e, full_type_name) (joined (λ same. ground (arith, e, same)))
  ]

  -- The two texts of an entry.
  abbrev pub texts : Result Entry → Result (String × String)
  texts (ok entry) = ok (entry.service_name, entry.type_name)
  texts (throw e) = throw e

  pub read_entry-Reads : (value : xml.Value) → Reads value (texts (read_entry xml value))
  unfolding read_entry
  read_entry-Reads value = elim (Result-cases (text_at xml "service" value)) [
    | inr (e, h) ↦ rw (h, read_entry) (no_service (text_at-TextAt "service" value _ h))
    | inl (name, h) ↦ elim (Result-cases (text_at xml "type" value)) [
      | inr (e, k) ↦
          rw (h, k, read_entry)
            (no_type (text_at-TextAt "service" value _ h) (text_at-TextAt "type" value _ k))
      | inl (type, k) ↦ elim (Result-cases (text_at xml "package" value)) [
        | inr (e, l) ↦
            rw (h, k, l, read_entry)
              (no_package (text_at-TextAt "service" value _ h) (text_at-TextAt "type" value _ k)
                (text_at-TextAt "package" value _ l))
        | inl (pkg, l) ↦
            rw (h, k, l, read_entry)
              (whole (text_at-TextAt "service" value _ h) (text_at-TextAt "type" value _ k)
                (text_at-TextAt "package" value _ l) (full_type_name-FullType pkg type))
      ]
    ]
  ]

-- The factory for a full type: that of the texts before and behind its first slash, and none for a
-- type without a slash.
pub data FactoryOf {Bridge World : Type 0} (d : ServiceDirection Bridge World) (full : String)
    : Option ServiceFactory → Type 0 where
  without_slash : ((pkg name : String) → (pkg <> ("/" <> name)) ≢ full) → FactoryOf d full none
  split :
      (pkg name : String)
      → pkg <> ("/" <> name) ≡ full
      → ((p n : String) → (p <> ("/" <> n)) ≢ pkg)
      → FactoryOf d full (d.factory_for pkg name)

pub factory_at-FactoryOf :
    {Bridge World : Type 0} (d : ServiceDirection Bridge World) (full : String)
    → FactoryOf d full (factory_at d full)
unfolding factory_at
factory_at-FactoryOf d full = elim (Option-cases (find_slash full)) [
  | inl e ↦ rw (e, factory_at) (without_slash (λ p n. no_slash p n full e))
  | inr (n, e) ↦
      rw (e, factory_at)
        (split (substr_to n full) (substr_from (suc n) full) (find_slash-split full n e)
          (λ p m. no_slash p m (substr_to n full) (find_slash-substr_to full n e)))
]
