-- ===== src/ConfigPatch/Laws.antt =====
-- platform/core/model/configpatch/patch.go: an addon that is appended and removed again.
use runfabric.Prelude.{
  String, ◌=?=◌, ◌≡◌, refl, ◌∙◌, sym, ap, Bool, true, false, Option, none, some, if◌then◌else◌, inl,
  inr, Bool-cases, arith, eq_iff, text_eq_refl,
}
use runfabric.Errors.{ok}
use runfabric.ConfigPatch.{
  Value, null, text, scalar, array, object, Values, no_values, item, Fields, no_fields, field,
  get_field, set_field, delete_field, append_value, is_addon, lists_addon, without_addon, Edit,
  append_to, keep_addons, remove_from, text_of, name_of, Edited, after_entry, behind,
  edit_functions, Root, fields, ConfigFile, read_root, write_root, load_functions_array, after_edit,
  patch_function, append_function_addon, remove_function_addon,
}

same_value : {v w : Value} → Path (Option Value) (some v) (some w) → v ≡ w
same_value h = cc

same_fields : {v w : Fields} → Path (Option Fields) (some v) (some w) → v ≡ w
same_fields h = cc

some_value : {v : Value} → Path (Option Value) (some v) none → ⊥
some_value h = cc

not_both : {a : Bool} → a ≡ true → a ≡ false → ⊥
not_both p q = cc

get-set_field :
    (key other : String) (v : Value) (f : Fields)
    → get_field other (set_field key v f) ≡ (if key =?= other then some v else get_field other f)
unfolding get_field set_field
get-set_field key other v no_fields = refl
get-set_field key other v (field k old rest) =
    ground (eq_iff k key, eq_iff k other, eq_iff key other, get-set_field key other v rest, arith)

set-set_field :
    (key : String) (v w : Value) (f : Fields)
    → set_field key v (set_field key w f) ≡ set_field key v f
unfolding set_field
set-set_field key v w no_fields = rw (text_eq_refl key) refl
set-set_field key v w (field k old rest) = elim (Bool-cases (k =?= key)) [
  | inl e ↦ rw e (rw e refl)
  | inr e ↦ rw e (rw e (ap (field k old) (set-set_field key v w rest)))
]

set-get_field :
    (key : String) (v : Value) (f : Fields) → get_field key f ≡ some v → set_field key v f ≡ f
unfolding get_field set_field
set-get_field key v no_fields h = cc
set-get_field key v (field k old rest) h = elim (Bool-cases (k =?= key)) [
  | inl e ↦
      let here : get_field key (field k old rest) ≡ some old = rw (e, get_field) refl in
      rw e (ap (λ x. field k x rest) (same_value (sym h ∙ here)))
  | inr e ↦
      let later : get_field key (field k old rest) ≡ get_field key rest = rw (e, get_field) refl in
      rw e (ap (field k old) (set-get_field key v rest (sym later ∙ h)))
]

delete-set_field :
    (key : String) (v : Value) (f : Fields)
    → get_field key f ≡ none
    → delete_field key (set_field key v f) ≡ f
unfolding get_field set_field delete_field
delete-set_field key v no_fields h = rw (text_eq_refl key) refl
delete-set_field key v (field k old rest) h = elim (Bool-cases (k =?= key)) [
  | inl e ↦
      let here : get_field key (field k old rest) ≡ some old = rw (e, get_field) refl in
      absurd (some_value (sym here ∙ h))
  | inr e ↦
      let later : get_field key (field k old rest) ≡ get_field key rest = rw (e, get_field) refl in
      rw e (rw e (ap (field k old) (delete-set_field key v rest (sym later ∙ h))))
]

without-append_value :
    (id : String) (l : Values)
    → lists_addon id l ≡ false
    → without_addon id (append_value (text id) l) ≡ l
unfolding lists_addon without_addon append_value is_addon
without-append_value id no_values h = rw (text_eq_refl id) refl
without-append_value id (item v rest) h = elim (Bool-cases (is_addon id v)) [
  | inl e ↦
      let here : lists_addon id (item v rest) ≡ true = rw (e, lists_addon) refl in
      absurd (not_both here h)
  | inr e ↦
      let later : lists_addon id (item v rest) ≡ lists_addon id rest = rw (e, lists_addon) refl in
      rw e (ap (item v) (without-append_value id rest (sym later ∙ h)))
]

-- The entry of a function without addons, or with some among which the addon is not.
pub data IsPlain (id : String) (f : Fields) : Type 0 where
  no_addons : get_field "addons" f ≡ none → IsPlain id f
  other_addons :
      (v : Value) (l : Values)
      → get_field "addons" f ≡ some (array (item v l))
      → lists_addon id (item v l) ≡ false
      → IsPlain id f

module _ (name id : String) where
  abbrev append_edit : Fields → Edit
  append_edit f = append_to name id f (get_field "addons" f)

  abbrev remove_edit : Fields → Edit
  remove_edit f = remove_from name id f (get_field "addons" f)

  pub record IsUndone (f g : Fields) : Type 0 where
    pub appended : append_edit f ≡ Edit.changed g
    pub removed : remove_edit g ≡ Edit.changed f
    pub same_name : name_of g ≡ name_of f

  name_of-set_field : (v : Value) (f : Fields) → name_of (set_field "addons" v f) ≡ name_of f
  unfolding name_of
  name_of-set_field v f = ap text_of (get-set_field "addons" "name" v f)

  addons_set : (v : Value) (f : Fields) → get_field "addons" (set_field "addons" v f) ≡ some v
  addons_set v f = get-set_field "addons" "addons" v f

  undone : (f : Fields) → IsPlain id f → (g : Fields) × IsUndone f g
  unfolding append_to remove_from keep_addons
  undone f (no_addons h) =
      let v = array (item (text id) no_values) in
      let g = set_field "addons" v f in
      (
        g,
        record {
          appended = ap (append_to name id f) h;
          removed =
              ap (remove_from name id g) (addons_set v f)
              ∙ rw (text_eq_refl id) (ap Edit.changed (delete-set_field "addons" v f h));
          same_name = name_of-set_field v f;
        },
      )
  undone f (other_addons v l h absent) =
      let w = array (append_value (text id) (item v l)) in
      let g = set_field "addons" w f in
      (
        g,
        record {
          appended = ap (append_to name id f) h ∙ rw absent refl;
          removed =
              ap (remove_from name id g) (addons_set w f)
              ∙ ap (λ x. Edit.changed (keep_addons x g)) (without-append_value id (item v l) absent)
              ∙ ap Edit.changed (
                  set-set_field "addons" (array (item v l)) w f
                  ∙ set-get_field "addons" (array (item v l)) f h);
          same_name = name_of-set_field w f;
        },
      )

-- The entry that the loop over the functions comes to.
unfoldable pub function_named : String → Values → Option Fields
unfolding name_of
function_named name no_values = none
function_named name (item (object f) rest) =
    let later = function_named name rest in if name_of f =?= name then some f else later
function_named name (item v rest) = none

module _ (name id : String) (f g : Fields) (h : IsUndone name id f g) where
  edits_undone :
      (l : Values)
      → function_named name l ≡ some f
      → (l' : Values) × (edit_functions name (append_edit name id) l ≡ Edited.changed l')
        × (edit_functions name (remove_edit name id) l' ≡ Edited.changed l)
  unfolding function_named edit_functions
  edits_undone no_values q = cc
  edits_undone (item null rest) q = cc
  edits_undone (item (text s) rest) q = cc
  edits_undone (item (scalar s) rest) q = cc
  edits_undone (item (array x) rest) q = cc
  edits_undone (item (object x) rest) q = elim (Bool-cases (name_of x =?= name)) [
    | inl e ↦
        let here : function_named name (item (object x) rest) ≡ some x =
          rw (e, function_named) refl in
        let at : x ≡ f = same_fields (sym here ∙ q) in
        let e' : (name_of g =?= name) ≡ true =
          ap (λ n. n =?= name) (h.same_name ∙ ap name_of (sym at)) ∙ e in
        (
          item (object g) rest,
          rw (e, edit_functions)
              (ap (λ x. after_entry x rest) (ap (append_edit name id) at ∙ h.appended)),
          rw (e', edit_functions)
              (ap (λ x. after_entry x rest) h.removed
                ∙ ap (λ x. Edited.changed (item (object x) rest)) (sym at)),
        )
    | inr e ↦
        let later : function_named name (item (object x) rest) ≡ function_named name rest =
          rw (e, function_named) refl in
        let (l', a, b) = edits_undone rest (sym later ∙ q) in
        (
          item (object x) l',
          rw (e, edit_functions) (ap (behind (object x)) a),
          rw (e, edit_functions) (ap (behind (object x)) b),
        )
  ]

abbrev with_functions : Values → Fields → ConfigFile → ConfigFile
with_functions l r c = record c { document = ok (fields (set_field "functions" (array l) r)) }

root_read :
    (c : ConfigFile) (r : Fields)
    → c.read_fails ≡ false
    → c.document ≡ ok (fields r)
    → read_root c ≡ ok (fields r)
unfolding read_root
root_read c r reads d = rw (reads, d, read_root) refl

root_written :
    (c : ConfigFile) (r : Root)
    → c.write_fails ≡ false
    → write_root r c ≡ (none, record c { document = ok r })
unfolding write_root
root_written c r writes = rw writes refl

patched :
    (name : String) (edit : Fields → Edit) (c : ConfigFile) (r : Fields) (l l' : Values)
    → c.read_fails ≡ false
    → c.write_fails ≡ false
    → c.document ≡ ok (fields r)
    → get_field "functions" r ≡ some (array l)
    → edit_functions name edit l ≡ Edited.changed l'
    → patch_function name edit c ≡ (none, with_functions l' r c)
unfolding patch_function load_functions_array after_edit
patched name edit c r l l' reads writes d q e =
    rw (root_read c r reads d, patch_function)
      (rw (q, patch_function) (rw (e, patch_function) (root_written c _ writes)))

module _ (name id : String) where
  -- Appending an addon to a function that does not list it and removing it again gives back the whole
  -- configuration, where the file can be read and written and the function either has no addons or
  -- has others.
  pub remove-append_function_addon :
      (c : ConfigFile) (r f : Fields) (l : Values)
      → c.read_fails ≡ false
      → c.write_fails ≡ false
      → c.document ≡ ok (fields r)
      → get_field "functions" r ≡ some (array l)
      → function_named name l ≡ some f
      → IsPlain id f
      → let (e, c') = append_function_addon name id c in
        (e ≡ none) × (remove_function_addon name id c' ≡ (none, c))
  unfolding append_function_addon remove_function_addon
  remove-append_function_addon c r f l reads writes d q found plain =
      let (g, h) = undone name id f plain in
      let (l', a, b) = edits_undone name id f g h l found in
      let first = patched name (append_edit name id) c r l l' reads writes d q a in
      let second =
        patched name (remove_edit name id) (with_functions l' r c)
          (set_field "functions" (array l') r) l' l reads writes refl
          (get-set_field "functions" "functions" (array l') r) b in
      (
        ap (λ x. x.0) first,
        ap (λ x. remove_function_addon name id x.1) first
            ∙ second
            ∙ ap (λ x. (none, record c { document = x }))
                (ap (λ x. ok (fields x))
                    (set-set_field "functions" (array l) (array l') r
                      ∙ set-get_field "functions" (array l) r q)
                  ∙ sym d),
      )
