-- ===== src/Lib.antt =====
-- ros1_bridge: the core of the bridge between ROS 1 and ROS 2.
--
-- The program watches both middlewares and keeps a bridge for every topic and service that one side
-- offers and the other wants. Its parts, by paths from the repository's root:
--
-- * src/dynamic_bridge.cpp. Two timers run `ros1_poll` and `ros2_poll`. Each stores what its side
--   offers and calls `update_bridge`, which creates, replaces and removes bridges.
--   DynamicBridge.antt holds the shared records. DynamicBridge/Topics.antt is the topic part of
--   `update_bridge` for either direction, and DynamicBridge/Directions.antt is what differs between
--   the two; DynamicBridge/Services.antt is the service part; DynamicBridge/Update.antt puts them
--   together over the four maps of bridges. DynamicBridge/ServiceInfo.antt is
--   `get_ros1_service_info`, DynamicBridge/Polls.antt, Polls/Ros1.antt and Polls/Ros2.antt are the
--   two callbacks, and DynamicBridge/Options.antt is `parse_command_options`.
--   DynamicBridge/Polls/Bridged.antt goes from the answers of the middlewares to the bridges.
--   DynamicBridge/Interleaving.antt runs the two callbacks as the two threads that they are, one step
--   for each stretch that holds the mutex. DynamicBridge/Update/Target.antt is an abstract view of
--   the topic bridges: the pair of types that each topic is bridged with.
-- * src/bridge.cpp and include/ros1_bridge/bridge.hpp. Bridge.antt has the functions that connect a
--   subscriber of one side to a publisher of the other.
-- * include/ros1_bridge/factory.hpp, factory_interface.hpp. Factory.antt has the operations that
--   create publishers, subscribers, clients and servers for a pair of types, and
--   Factory/Interface.antt the interfaces through which the bridges use them.
--   Factory/Callbacks.antt has the two callbacks of a factory, which pass messages on,
--   Factory/Forward.antt those of a service factory, which pass calls on, and Factory/Generic.antt
--   the conversions of serialized messages, around the generated ones of Messages.antt.
-- * src/builtin_interfaces_factories.cpp and the templates in resource/. Factory/Registry.antt has
--   the lookups of factories and of type mappings, and Factory/Registry/Listing.antt their lists.
-- * src/convert_builtin_interfaces.cpp, and the factories of src/builtin_interfaces_factories.cpp.
--   Convert.antt has times and durations, Convert/Streams.antt the stream helpers, those of headers
--   included, and Convert/Builtin.antt the members of the factories for std_msgs/Duration and
--   std_msgs/Time.
-- * resource/interface_factories.cpp.em. Messages.antt has `convert_1_to_2` and `convert_2_to_1` of a
--   mapped pair of messages, as trees of named fields, for the pairs of fields that the template is
--   given; Messages/Types.antt says which of these compile, and Messages/Specified.antt what they
--   are to do. Messages/Services.antt has the translation of requests and responses, and
--   Messages/Pointers.antt the conversions behind pointers to void. Fields.antt has what the stream
--   helpers do with sequences, and Fields/Primitive.antt with those of primitive elements.
-- * ros1_bridge/__init__.py, the generator that fills in the templates. Generator.antt has the
--   mappings and the rules, Generator/FieldMapping.antt `determine_field_mapping`,
--   Generator/MessagePairs.antt the pairs of packages and messages, Generator/Generate.antt
--   `generate_messages`, Generator/Order.antt its topological order, and Generator/Filled.antt
--   what `generate_cpp` fills in for the lookups of Factory/Registry.antt.
-- * src/parameter_bridge.cpp. ParameterBridge/Qos.antt is `qos_from_params`, and
--   ParameterBridge/Topics.antt and ParameterBridge/Services.antt are the loops of its `main`, which
--   ParameterBridge/Main.antt puts together.
-- * src/simple_bridge.cpp, its two one-way variants and src/static_bridge.cpp: SimpleBridge.antt.
--
-- Code runs as functions from a state to a result and a state: Prelude/Exec.antt. A result is a
-- value or an exception, and what was written before a throw stays written. std::map and std::set
-- are lists of entries in key order: StdMap.antt. Text.antt has the operations on type names.
--
-- roscpp and rclcpp are not part of the repository. Their types of handles and their calls come as
-- the records `Ros`, `Network`, `Master`, `Graph`, `Relay`, `ServiceRelay`, `Serialization`,
-- `Streams`, `Memory`, `XmlRpc`, `QosSetters` and `Chatter`, each call that acts on the middlewares
-- changing a state of theirs and free to throw; theorems that rely on more name it as a hypothesis.
-- The mappings that the generator fills into the templates come as the record `Generated`, and what
-- the generator reads from the definitions of messages as the record `Definitions`. Tests.antt and
-- its children apply the theorems to middlewares that only count the handles they give out.
--
-- Two selections of fields are the same where they have the same names, in the generator too, where
-- they are keys by the fields that they go through. A loop of the generator that orders the mappings
-- has as much fuel as there are mappings; one is taken out in each round.
--
-- The last loop of `update_bridge` repeats a round at an entry while shutting its server down
-- throws, so that the source has no bound for it. Fuel bounds the rounds at one entry; one round is
-- enough where the call does not throw. The loop of `forward_1_to_2` that waits for a service has
-- fuel too: it goes on for as long as the service is absent and rclcpp runs. In
-- `map[name] = factory->...` the language leaves open whether the entry is made before the call;
-- the model makes the call first. Positions in texts count characters, which differs from bytes for
-- text that is not ASCII.
--
-- In Interleaving.antt the middlewares' state may change at any time, and the maps of bridges that
-- `ros2_poll` reads without the mutex may hold anything: the language leaves such a read undefined
-- where the other thread writes, and the model does not say more of it.
--
-- Not modelled: what the program prints, except for the log of `update_bridge` and the list of
-- pairs; assignments between fields of different primitive types, which C++ converts; the start of
-- the nodes and the spinners, which are calls of roscpp and rclcpp only; in the generator, the search
-- for packages, the parsing of definitions and rules, and `determine_common_services`.
pub mod Prelude
pub mod StdMap
pub mod Text
pub mod Ros
pub mod Factory
pub mod Bridge
pub mod Convert
pub mod DynamicBridge
pub mod ParameterBridge
pub mod Fields
pub mod Messages
pub mod Generator
pub mod SimpleBridge
pub mod Tests
