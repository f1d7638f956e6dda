-- ===== src/ConfigPatch.antt =====
-- platform/core/model/configpatch/patch.go: AppendFunctionAddon and RemoveFunctionAddon. A file is the
-- YAML value that it parses as, or an error; a map is the list of its fields.
pub mod Laws
pub mod Tests
use runfabric.Prelude.{
  String, ◌<>◌, ◌=?=◌, Bool, true, false, ◌||◌, Option, none, some, if◌then◌else◌,
}
use runfabric.Errors.{Error, io, parse, message, wrap, Result, ok, err}

mutual
  pub data Value : Type 0 where
    null : Value
    text : String → Value
    -- a number, a truth value or a time, by its text
    scalar : String → Value
    array : Values → Value
    object : Fields → Value

  pub data Values : Type 0 where
    no_values : Values
    item : Value → Values → Values

  pub data Fields : Type 0 where
    no_fields : Fields
    field : String → Value → Fields → Fields

unfoldable pub get_field : String → Fields → Option Value
get_field key no_fields = none
get_field key (field k v rest) = if k =?= key then some v else get_field key rest

unfoldable pub set_field : String → Value → Fields → Fields
set_field key v no_fields = field key v no_fields
set_field key v (field k old rest) =
    if k =?= key then field k v rest else field k old (set_field key v rest)

-- The map's `delete`: a key stands once.
unfoldable pub delete_field : String → Fields → Fields
delete_field key no_fields = no_fields
delete_field key (field k v rest) = if k =?= key then rest else field k v (delete_field key rest)

unfoldable pub append_value : Value → Values → Values
append_value v no_values = item v no_values
append_value v (item x rest) = item x (append_value v rest)

unfoldable pub is_addon : String → Value → Bool
is_addon id (text s) = s =?= id
is_addon id other = false

unfoldable pub lists_addon : String → Values → Bool
unfolding is_addon
lists_addon id no_values = false
lists_addon id (item v rest) = is_addon id v || lists_addon id rest

unfoldable pub without_addon : String → Values → Values
unfolding is_addon
without_addon id no_values = no_values
without_addon id (item v rest) =
    let kept = without_addon id rest in if is_addon id v then kept else item v kept

-- What is done to the entry of a function.
pub data Edit : Type 0 where
  failed : Error → Edit
  unchanged : Edit
  changed : Fields → Edit

unfoldable pub addons_error : String → Error
addons_error name = message ("functions[" <> name <> "].addons must be an array")

unfoldable pub append_to : String → String → Fields → Option Value → Edit
unfolding set_field append_value lists_addon addons_error
append_to name id f none = changed (set_field "addons" (array (item (text id) no_values)) f)
append_to name id f (some null) = changed (set_field "addons" (array (item (text id) no_values)) f)
append_to name id f (some (array l)) =
    if lists_addon id l
    then unchanged
    else changed (set_field "addons" (array (append_value (text id) l)) f)
append_to name id f (some v) = failed (addons_error name)

unfoldable pub keep_addons : Values → Fields → Fields
unfolding set_field delete_field
keep_addons no_values f = delete_field "addons" f
keep_addons (item v l) f = set_field "addons" (array (item v l)) f

unfoldable pub remove_from : String → String → Fields → Option Value → Edit
unfolding keep_addons without_addon addons_error
remove_from name id f none = changed f
remove_from name id f (some null) = changed f
remove_from name id f (some (array l)) = changed (keep_addons (without_addon id l) f)
remove_from name id f (some v) = failed (addons_error name)

-- The name of an entry; one that is missing or no text reads as the empty text.
unfoldable pub text_of : Option Value → String
text_of (some (text s)) = s
text_of v = ""

unfoldable pub name_of : Fields → String
unfolding get_field text_of
name_of f = text_of (get_field "name" f)

-- What the loop over the functions gives.
pub data Edited : Type 0 where
  failed : Error → Edited
  unchanged : Edited
  changed : Values → Edited

abbrev pub after_entry : Edit → Values → Edited
after_entry (Edit.failed e) rest = Edited.failed e
after_entry Edit.unchanged rest = Edited.unchanged
after_entry (Edit.changed f) rest = Edited.changed (item (object f) rest)

abbrev pub behind : Value → Edited → Edited
behind v (Edited.failed e) = Edited.failed e
behind v Edited.unchanged = Edited.unchanged
behind v (Edited.changed l) = Edited.changed (item v l)

unfoldable pub edit_functions : String → (Fields → Edit) → Values → Edited
unfolding name_of
edit_functions name edit no_values =
    Edited.failed (message ("function \"" <> name <> "\" not found"))
edit_functions name edit (item (object f) rest) =
    let later = edit_functions name edit rest in
    if name_of f =?= name then after_entry (edit f) rest else behind (object f) later
edit_functions name edit (item v rest) = Edited.failed (message "functions entries must be objects")

-- A file whose document is empty parses as a nil map.
pub data Root : Type 0 where
  nil_map : Root
  fields : Fields → Root

pub record ConfigFile : Type 0 where
  pub document : Result Root
  pub read_fails : Bool
  pub write_fails : Bool

unfoldable pub read_root : ConfigFile → Result Root
read_root c =
    if c.read_fails
    then err (wrap "read config" io)
    else elim c.document [ err e ↦ err (wrap "parse yaml" e) | ok r ↦ ok r ]

-- os.WriteFile, which truncates the file first.
unfoldable pub write_root : Root → ConfigFile → Option Error × ConfigFile
write_root r c =
    if c.write_fails
    then (some io, record c { document = err parse })
    else (none, record c { document = ok r })

abbrev root_fields : Root → Fields
root_fields nil_map = no_fields
root_fields (fields f) = f

unfoldable pub load_functions_array : Option Value → Result Values
load_functions_array none = ok no_values
load_functions_array (some null) = ok no_values
load_functions_array (some (array l)) = ok l
load_functions_array (some v) = err (message "functions must be an array to patch; edit manually")

-- A nil map has no functions, so it is never written to.
unfoldable pub after_edit : Root → ConfigFile → Edited → Option Error × ConfigFile
unfolding write_root set_field
after_edit r c (Edited.failed e) = (some e, c)
after_edit r c Edited.unchanged = (none, c)
after_edit r c (Edited.changed l) =
    write_root (fields (set_field "functions" (array l) (root_fields r))) c

unfoldable pub patch_function : String → (Fields → Edit) → ConfigFile → Option Error × ConfigFile
unfolding read_root load_functions_array edit_functions after_edit get_field
patch_function name edit c = elim (read_root c) [
  | err e ↦ (some e, c)
  | ok r ↦ elim (load_functions_array (get_field "functions" (root_fields r))) [
    | err e ↦ (some e, c)
    | ok l ↦ after_edit r c (edit_functions name edit l)
  ]
]

unfoldable pub append_function_addon : String → String → ConfigFile → Option Error × ConfigFile
unfolding patch_function append_to get_field
append_function_addon name id c =
    patch_function name (λ f. append_to name id f (get_field "addons" f)) c

unfoldable pub remove_function_addon : String → String → ConfigFile → Option Error × ConfigFile
unfolding patch_function remove_from get_field
remove_function_addon name id c =
    patch_function name (λ f. remove_from name id f (get_field "addons" f)) c
