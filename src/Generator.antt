-- ===== src/Generator.antt =====
-- ros1_bridge/__init__.py: determine_field_mapping, the pairs of fields that the templates get. What
-- genmsg and rosidl_parser read from the definitions of a message is its list of fields, by name; the
-- lower case of a name and the fields of a nested message are arguments.
pub mod FieldMapping
pub mod Order
pub mod Sorted
pub mod Filled
pub mod Among
pub mod Served
pub mod MessagePairs
pub mod Generate
pub mod Given
pub mod Matched
pub mod Mapped
pub mod Pipeline
pub mod Pairs
pub mod ByName
pub mod Built
pub mod Described
pub mod Outcome
use ros1_bridge.Prelude.{
  ◌≡◌, Bool, true, false, not, ◌&&◌, ◌||◌, String, Option, none, some, List, [], ◌∷◌, ◌++◌, ◌==◌,
  is_some, has, if◌then◌else◌,
}
use ros1_bridge.Prelude.Exec.{Exception, Result, ok, throw, out_of_range}
use ros1_bridge.Prelude.Results.{◌>>=◌}

-- A message's name. Two are equal where package and name are.
pub record Message : Type 0 where
  pub package_name : String
  pub message_name : String

infix 50 ◌==ₘ◌
abbrev pub ◌==ₘ◌ : Message → Message → Bool
m ==ₘ n = m.package_name == n.package_name && m.message_name == n.message_name

pub record Ros1Field : Type 0 where
  pub name : String
  pub base_type : String

-- The type of a ROS 2 member: a name with namespaces, or anything else.
pub data MemberType : Type 0 where
  namespaced : (namespaces : List String) (name : String) → MemberType
  other_type : MemberType

pub record Member : Type 0 where
  pub name : String
  pub type : MemberType

-- A selection is the names of the fields that it goes through.
abbrev pub Selection : Type 0
Selection = List String

abbrev pub same_selection : Selection → Selection → Bool
same_selection [] [] = true
same_selection (f ∷ p) (g ∷ q) = f == g && same_selection p q
same_selection p q = false

-- An OrderedDict: an assignment to a key that is there keeps its place.
abbrev pub OrderedDict : Type 0
OrderedDict = List (Selection × Selection)

unfoldable pub put : Selection → Selection → OrderedDict → OrderedDict
put k v [] = (k, v) ∷ []
put k v ((j, w) ∷ d) = if same_selection j k then (j, v) ∷ d else (j, w) ∷ put k v d

abbrev pub lookup : Selection → OrderedDict → Option Selection
lookup k [] = none
lookup k ((j, w) ∷ d) = if same_selection j k then some w else lookup k d

pub record Mapping : Type 0 where
  pub ros1_msg : Message
  pub ros2_msg : Message
  pub fields_1_to_2 : OrderedDict
  pub fields_2_to_1 : OrderedDict
  pub depends_on_ros2_messages : List Message
  pub ros1_field_missing_in_ros2 : Bool

abbrev pub member_names : List Member → Selection
member_names [] = []
member_names (m ∷ ms) = m.name ∷ member_names ms

abbrev pub field_names : List Ros1Field → Selection
field_names [] = []
field_names (f ∷ fs) = f.name ∷ field_names fs

abbrev pub has_message : Message → List Message → Bool
has_message m [] = false
has_message m (n ∷ ns) = n ==ₘ m || has_message m ns

abbrev pub add_message : Message → List Message → List Message
add_message m ns = if has_message m ns then ns else ns ++ (m ∷ [])

-- Types of two namespaces whose second is `msg`, but for builtin_interfaces.
unfoldable pub dependency : MemberType → Option Message
dependency (namespaced (pkg_name ∷ kind ∷ []) name) =
    if kind == "msg" && not (pkg_name == "builtin_interfaces")
    then some (record { package_name = pkg_name; message_name = name })
    else none
dependency type = none

abbrev add_optional : Option Message → List Message → List Message
add_optional none ns = ns
add_optional (some m) ns = add_message m ns

abbrev pub add_dependencies : List Member → List Message → List Message
add_dependencies [] ns = ns
add_dependencies (m ∷ ms) ns = add_dependencies ms (add_optional (dependency m.type) ns)

unfoldable pub add_field_pair : Selection → List Member → Mapping → Mapping
add_field_pair ros1_fields ros2_members mapping = record {
  ros1_msg = mapping.ros1_msg;
  ros2_msg = mapping.ros2_msg;
  fields_1_to_2 = put ros1_fields (member_names ros2_members) mapping.fields_1_to_2;
  fields_2_to_1 = put (member_names ros2_members) ros1_fields mapping.fields_2_to_1;
  depends_on_ros2_messages = add_dependencies ros2_members mapping.depends_on_ros2_messages;
  ros1_field_missing_in_ros2 = mapping.ros1_field_missing_in_ros2;
}

-- `[f for f in fields if f.name == name][0]`
unfoldable pub first_named : {A : Type 0} → (A → String) → String → List A → Result A
first_named name_of name [] = throw out_of_range
first_named name_of name (f ∷ fs) =
    let rest = first_named name_of name fs in if name_of f == name then ok f else rest

-- get_ros1_selected_fields and get_ros2_selected_fields: `nested` loads the message of a field.
unfoldable pub selected_fields :
    {A : Type 0} → (A → String) → (A → Result (List A)) → List String → List A → Result (List A)
selected_fields name_of nested [] spec = ok []
selected_fields name_of nested (f ∷ []) spec = do
  field ← first_named name_of f spec
  ok (field ∷ [])
selected_fields name_of nested (f ∷ g ∷ path) spec = do
  field ← first_named name_of f spec
  sub ← nested field
  fields ← selected_fields name_of nested (g ∷ path) sub
  ok (field ∷ fields)

-- A MessageMappingRule. The names of the messages are none where it is no message mapping, and
-- `fields_1_to_2` where it is no field mapping.
pub record MessageMappingRule : Type 0 where
  pub ros1_package_name : String
  pub ros2_package_name : String
  pub package_mapping : Bool
  pub ros1_message_name : Option String
  pub ros2_message_name : Option String
  pub fields_1_to_2 : Option OrderedDict

abbrev pub is_name : Option String → String → Bool
is_name none name = false
is_name (some rule_name) name = rule_name == name

-- The selections of a rule for this pair of messages.
unfoldable pub selections_of : MessageMappingRule → Message → Message → OrderedDict
selections_of rule ros1_msg ros2_msg =
    if rule.ros1_package_name == ros1_msg.package_name
      && is_name rule.ros1_message_name ros1_msg.message_name
      && rule.ros2_package_name == ros2_msg.package_name
      && is_name rule.ros2_message_name ros2_msg.message_name
    then given rule.fields_1_to_2
    else []
  where
    given : Option OrderedDict → OrderedDict
    given none = []
    given (some fields) = fields
