-- ===== src/Actions/Log.antt =====
-- _check_privileged_action_arguments and _format_args of plinth/actions.py. json.dumps is an argument.
use freedom_box.Base.{
  ℕ, String, Bool, true, false, ◌&&◌, ◌||◌, not, Option, none, some, List, [], ◌∷◌, nat_eq,
  if◌then◌else◌,
}
use Prim.Native.Char.{code}
use Prim.Native.String.{◌++◌ as str_append}
use freedom_box.Dict.{Dict}
use freedom_box.Actions.Values.{Value, Annotation, Annotations, none_type, secret_str, union}
use freedom_box.Actions.Check.{Parameter, ArgSpec, annotation_of}

-- keyword in arg_name
abbrev pub starts_with : String → String → Bool
starts_with String.[] s = true
starts_with (String.◌∷◌ c k) String.[] = false
starts_with (String.◌∷◌ c k) (String.◌∷◌ d s) = nat_eq (code c) (code d) && starts_with k s

abbrev pub is_in : String → String → Bool
is_in k String.[] = starts_with k String.[]
is_in k (String.◌∷◌ c s) = starts_with k (String.◌∷◌ c s) || is_in k s

unfoldable pub is_sensitive : String → Bool
is_sensitive name = is_in "password" name || (is_in "passphrase" name || is_in "secret" name)

-- annotation in [secret_str, secret_str | None]; the order in a union does not count.
unfoldable pub is_secret : Annotation → Bool
is_secret secret_str = true
is_secret (union (Annotations.cons secret_str (Annotations.cons none_type Annotations.nil))) = true
is_secret (union (Annotations.cons none_type (Annotations.cons secret_str Annotations.nil))) = true
is_secret a = false

-- The signature of a function before it is decorated: `none` for a missing annotation, and whether it
-- has variable or keyword-only parameters.
pub record Signature : Type 0 where
  pub parameters : List (String × Option Annotation)
  pub defaults : ℕ
  pub has_variable : Bool

abbrev pub add_parameter : String → Annotation → Option (List Parameter) → Option (List Parameter)
add_parameter name a none = none
add_parameter name a (some ps) =
    if is_sensitive name && not (is_secret a)
    then none
    else some (record { name = name; annotation = a } ∷ ps)

unfoldable pub check_parameters : List (String × Option Annotation) → Option (List Parameter)
check_parameters [] = some []
check_parameters ((name, none) ∷ ps) = none
check_parameters ((name, some a) ∷ ps) = add_parameter name a (check_parameters ps)

abbrev pub with_defaults : ℕ → Option (List Parameter) → Option ArgSpec
with_defaults n none = none
with_defaults n (some ps) = some (record { args = ps; defaults = n })

-- _check_privileged_action_arguments: the specification of a function that it accepts, where `none` is
-- a SyntaxError. The return annotation, whose name is `return`, has none of the keywords.
unfoldable pub check_signature : Signature → Option ArgSpec
unfolding check_parameters
check_signature s =
    if s.has_variable then none else with_defaults s.defaults (check_parameters s.parameters)

abbrev pub cons_some : String → Option (List String) → Option (List String)
cons_some x none = none
cons_some x (some l) = some (x ∷ l)

module _ (dumps : Value → String) where
  abbrev pub shown : Annotation → Value → String
  shown a v = if is_secret a then "****" else dumps v

  abbrev pub show_keyword :
      String → Option Annotation → Value → Option (List String) → Option (List String)
  show_keyword k none v rest = none
  show_keyword k (some a) v rest = cons_some (str_append k (str_append "=" (shown a v))) rest

  unfoldable pub format_keywords : List Parameter → Dict Value → Option (List String)
  format_keywords ps [] = some []
  format_keywords ps ((k, v) ∷ kwargs) =
      show_keyword k (annotation_of k ps) v (format_keywords ps kwargs)

  unfoldable pub format_positional :
      List Parameter → List Value → Option (List String) → Option (List String)
  format_positional ps [] rest = rest
  format_positional [] (v ∷ vs) rest = none
  format_positional (p ∷ ps) (v ∷ vs) rest =
      cons_some (shown p.annotation v) (format_positional ps vs rest)

  -- _format_args: the parts of the text; `none` is an exception.
  unfoldable pub format_args : ArgSpec → List Value → Dict Value → Option (List String)
  unfolding format_positional format_keywords
  format_args spec args kwargs = format_positional spec.args args (format_keywords spec.args kwargs)
