-- ===== src/ConfigPatch/Tests.antt =====
-- platform/core/model/configpatch/patch.go: a run of the theorem on a small configuration.
use runfabric.Prelude.{◌≡◌, refl, false, none, some}
use runfabric.Errors.{ok}
use runfabric.ConfigPatch.{
  text, array, object, Values, no_values, item, Fields, no_fields, field, get_field, fields,
  ConfigFile, lists_addon, append_function_addon, remove_function_addon,
}
use runfabric.ConfigPatch.Laws.{function_named, IsPlain, other_addons, remove-append_function_addon}

abbrev hello : Fields
hello =
    field "name" (text "hello") (field "addons" (array (item (text "redis") no_values)) no_fields)

abbrev functions : Values
functions = item (object (field "name" (text "other") no_fields)) (item (object hello) no_values)

abbrev root : Fields
root = field "service" (text "svc") (field "functions" (array functions) no_fields)

abbrev file : ConfigFile
file = record { document = ok (fields root); read_fails = false; write_fails = false }

listed : get_field "functions" root ≡ some (array functions)
unfolding get_field
listed = refl

finds : function_named "hello" functions ≡ some hello
unfolding function_named get_field
finds = refl

plain : IsPlain "sentry" hello
unfolding get_field lists_addon
plain = other_addons (text "redis") no_values refl refl

remove-append_function_addon_example :
    ((append_function_addon "hello" "sentry" file).0 ≡ none)
    × (remove_function_addon "hello" "sentry" (append_function_addon "hello" "sentry" file).1
        ≡ (none, file))
remove-append_function_addon_example =
    remove-append_function_addon "hello" "sentry" file root hello functions refl refl refl listed
      finds plain
