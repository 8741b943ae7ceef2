-- ===== src/Options.antt =====
-- `Options` of include/logpp/sinks/Sink.h: what a configuration gives a sink. The unordered maps are
-- association lists, with the operations of `std::map`.
use logpp.Common.{ℕ, Bool, Option, none, some, List}
use logpp.Registry.{find, insert}

abbrev pub Text : Type 0
Text = List ℕ

abbrev pub Dict : Type 0
Dict = List (Text × Text)

-- `Options::Value`
pub data OptionValue : Type 0 where
  string_value : Text → OptionValue
  array_value : List Text → OptionValue
  dict_value : Dict → OptionValue

abbrev pub Options : Type 0
Options = List (Text × OptionValue)

unfoldable pub as_string : OptionValue → Option Text
as_string (string_value s) = some s
as_string (array_value a) = none
as_string (dict_value d) = none

unfoldable pub as_array : OptionValue → Option (List Text)
as_array (string_value s) = none
as_array (array_value a) = some a
as_array (dict_value d) = none

unfoldable pub as_dict : OptionValue → Option Dict
as_dict (string_value s) = none
as_dict (array_value a) = none
as_dict (dict_value d) = some d

-- `add` and `tryGet`
unfoldable pub add : Text → OptionValue → Options → Options × Bool
unfolding insert
add key value options = insert key value options

unfoldable pub try_get : Text → Options → Option OptionValue
unfolding find
try_get key options = find key options
