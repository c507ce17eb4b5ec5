-- ===== src/Actions/Check.antt =====
-- _privileged_assert_valid_type and _privileged_assert_valid_arguments of plinth/actions.py. Each check
-- is a test: false where the source raises.
use freedom_box.Base.{
  ℕ, zero, suc, ◌+◌, ◌-◌, String, Bool, true, false, ◌&&◌, ◌||◌, not, Option, none, some, List, [],
  ◌∷◌, ◌==◌, ltb, leb, if◌then◌else◌, length, contains,
}
use freedom_box.Dict.{Dict, has_key}
use freedom_box.Actions.Values.{
  Value, null, boolean, integer, float, text, list, dict, Annotation, Annotations, any, none_type,
  bool_type, int_type, str_type, float_type, secret_str, union, list_of, dict_of, unsupported,
  all_items, all_fields,
}

-- isinstance with the basic types; a bool is an int.
abbrev pub is_none : Value → Bool
is_none null = true
is_none _ = false

abbrev pub is_bool : Value → Bool
is_bool (boolean b) = true
is_bool _ = false

abbrev pub is_int : Value → Bool
is_int (boolean b) = true
is_int (integer s n) = true
is_int _ = false

abbrev pub is_str : Value → Bool
is_str (text s) = true
is_str _ = false

abbrev pub is_float : Value → Bool
is_float (float s) = true
is_float _ = false

abbrev pub check_list : (Value → Bool) → Value → Bool
check_list p (list vs) = all_items p vs
check_list p _ = false

abbrev pub check_dict : (Value → Bool) → (Value → Bool) → Value → Bool
check_dict p q (dict fs) = all_fields p q fs
check_dict p q _ = false

-- _privileged_assert_valid_type, and its loop over the types of a union
unfoldable mutual
  pub is_valid_type : Annotation → Value → Bool
  is_valid_type any v = true
  is_valid_type none_type v = is_none v
  is_valid_type bool_type v = is_bool v
  is_valid_type int_type v = is_int v
  is_valid_type str_type v = is_str v
  is_valid_type float_type v = is_float v
  is_valid_type secret_str v = is_str v
  is_valid_type (union as_) v = is_valid_union as_ v
  is_valid_type (list_of a) v = check_list (is_valid_type a) v
  is_valid_type (dict_of k a) v = check_dict (is_valid_type k) (is_valid_type a) v
  is_valid_type unsupported v = false

  pub is_valid_union : Annotations → Value → Bool
  is_valid_union Annotations.nil v = false
  is_valid_union (Annotations.cons a as_) v = is_valid_type a v || is_valid_union as_ v

-- inspect.getfullargspec of a privileged method: the parameters in order, all annotated, of which the
-- last `defaults` have a default value.
pub record Parameter : Type 0 where
  pub name : String
  pub annotation : Annotation

pub record ArgSpec : Type 0 where
  pub args : List Parameter
  pub defaults : ℕ

abbrev pub names : List Parameter → List String
names [] = []
names (p ∷ ps) = p.name ∷ names ps

-- argspec.args.index(key)
abbrev pub index_of : String → List Parameter → ℕ
index_of k [] = 0
index_of k (p ∷ ps) = let rest = index_of k ps in if p.name == k then 0 else suc rest

-- argspec.annotations[key]
abbrev pub annotation_of : String → List Parameter → Option Annotation
annotation_of k [] = none
annotation_of k (p ∷ ps) = if p.name == k then some p.annotation else annotation_of k ps

abbrev pub is_valid_for : Option Annotation → Value → Bool
is_valid_for none v = false
is_valid_for (some a) v = is_valid_type a v

-- The loop over the parameters in argspec.args[n:m]
abbrev pub has_required : ℕ → ℕ → List Parameter → Dict Value → Bool
has_required n m [] kwargs = true
has_required zero zero (p ∷ ps) kwargs = true
has_required zero (suc m) (p ∷ ps) kwargs = has_key p.name kwargs && has_required zero m ps kwargs
has_required (suc n) zero (p ∷ ps) kwargs = true
has_required (suc n) (suc m) (p ∷ ps) kwargs = has_required n m ps kwargs

-- One round of the loop over kwargs
abbrev pub is_valid_keyword : List Parameter → ℕ → String → Value → Bool
is_valid_keyword params n k v =
    contains k (names params)
    && (not (ltb (index_of k params) n) && is_valid_for (annotation_of k params) v)

abbrev pub all_entries : (String → Value → Bool) → Dict Value → Bool
all_entries p [] = true
all_entries p ((k, v) ∷ d) = p k v && all_entries p d

-- The loop over args; argspec.args[index] is there, as there are not too many arguments.
abbrev pub are_valid_positional : List Parameter → List Value → Bool
are_valid_positional params [] = true
are_valid_positional [] (v ∷ vs) = false
are_valid_positional (p ∷ ps) (v ∷ vs) = is_valid_type p.annotation v && are_valid_positional ps vs

-- _privileged_assert_valid_arguments, for a list and a dictionary
unfoldable pub are_valid_arguments : ArgSpec → List Value → Dict Value → Bool
unfolding is_valid_type
are_valid_arguments spec args kwargs =
    leb (length args + length kwargs) (length spec.args)
    && (has_required (length args) (length spec.args - spec.defaults) spec.args kwargs
        && (all_entries (is_valid_keyword spec.args (length args)) kwargs
            && are_valid_positional spec.args args))
