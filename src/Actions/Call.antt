-- ===== src/Actions/Call.antt =====
-- privileged_handle_json_request and _privileged_call of plinth/actions.py. Python's imports and the
-- called methods stand behind an interface; `none` of the JSON parser is JSONDecodeError.
use freedom_box.Base.{
  String, Bool, true, false, ◌||◌, Option, none, some, List, [], ◌∷◌, ◌==◌, nat_eq, if◌then◌else◌,
}
use Prim.Native.Char.{code}
use Prim.Native.String.{◌++◌ as str_append}
use freedom_box.Dict.{Dict, lookup, insert}
use freedom_box.Actions.Values.{Value, boolean, text, list, dict, Items, Fields, end, field}
use freedom_box.Actions.Check.{ArgSpec, are_valid_arguments}
use freedom_box.Actions.Binding.{AreDistinct}

-- The exceptions of the daemon's own checks; a failed check of arguments counts as one kind.
pub data Error : Type 0 where
  syntax_error type_error : Error

-- A list and a dictionary of JSON as Python has them; a key that stands twice has its last value.
abbrev pub items_of : Items → List Value
items_of Items.nil = []
items_of (Items.cons v vs) = v ∷ items_of vs

abbrev pub fields_into : Dict Value → Fields → Dict Value
fields_into d end = d
fields_into d (field k v fs) = fields_into (insert k v d) fs

pub record Request : Type 0 where
  pub module_name : String
  pub action_name : String
  pub args : List Value
  pub kwargs : Dict Value
  pub raw_output : Bool

pub data Parsed : Type 0 where
  parsed : Request → Parsed
  invalid : Error → Parsed

-- 'raw_output' and 'log_error': a bool, if there; `none` is a TypeError.
abbrev pub flag : Option Value → Bool → Option Bool
flag none default = some default
flag (some (boolean b)) default = some b
flag (some v) default = none

abbrev pub parse_flags :
    String → String → List Value → Dict Value → Option Bool → Option Bool → Parsed
parse_flags m a args kwargs (some raw) (some log) =
    parsed
      (record { module_name = m; action_name = a; args = args; kwargs = kwargs; raw_output = raw })
parse_flags m a args kwargs _ _ = invalid type_error

abbrev pub parse_parameters :
    Option Value → Option Value → Option Value → Option Value → Option Bool → Option Bool → Parsed
parse_parameters (some (text m)) (some (text a)) (some (list vs)) (some (dict fs)) raw log =
    parse_flags m a (items_of vs) (fields_into [] fs) raw log
parse_parameters _ _ _ _ raw log = invalid type_error

-- _parse_request; a request that is not a dictionary fails in the first test or lookup.
unfoldable pub parse_request : Option Value → Parsed
parse_request none = invalid syntax_error
parse_request (some (dict fs)) =
    let d = fields_into [] fs in
    parse_parameters (lookup "module" d) (lookup "action" d) (lookup "args" d) (lookup "kwargs" d)
      (flag (lookup "raw_output" d) false) (flag (lookup "log_error" d) true)
parse_request (some v) = invalid type_error

-- What a method gives: a value, an open reader, or an exception.
pub data Returned : Type 0 where
  value : Value → Returned
  reader raised : Returned

-- An attribute of a module: whether it is marked by the decorator, and the method below its wrappers.
-- Python refuses two parameters of one name.
pub record Action (R : Type 0) : Type 0 where
  pub is_privileged : Bool
  pub spec : ArgSpec
  pub distinct : AreDistinct spec.args
  pub call : List Value → Dict Value → R → Returned × R

-- module_loader.get_module_import_path, and the attributes of an imported module
pub record Environment (R : Type 0) : Type 0 where
  pub import_path : String → Option String
  pub import_module : String → Option (String → Option (Action R))

-- '.' in module_name
unfoldable pub has_dot : String → Bool
has_dot String.[] = false
has_dot (String.◌∷◌ c s) = nat_eq (code c) 46 || has_dot s

pub data Answer : Type 0 where
  success : Value → Answer
  exception stream : Answer
  raises : Error → Answer

abbrev pub answer_of : Returned → Answer
answer_of (value v) = success v
answer_of reader = stream
answer_of raised = exception

-- The response of privileged_handle_json_request: the reader itself, or the JSON of a result.
pub data Response : Type 0 where
  raw : Response
  success_result : Value → Response
  exception_result : Response

abbrev pub respond : Bool → Answer → Response
respond raw_output (success v) = success_result v
respond raw_output exception = exception_result
respond raw_output (raises e) = exception_result
respond true stream = raw
respond false stream = exception_result

module _ {R : Type 0} where
  -- The call of an attribute: whether it is privileged, and whether its arguments are valid
  abbrev pub call_if : Bool → Bool → Action R → List Value → Dict Value → R → Answer × R
  call_if false valid action args kwargs r = (raises syntax_error, r)
  call_if true false action args kwargs r = (raises type_error, r)
  call_if true true action args kwargs r =
      let (returned, r') = action.call args kwargs r in (answer_of returned, r')

  abbrev pub call_action : Option (Action R) → List Value → Dict Value → R → Answer × R
  call_action none args kwargs r = (raises syntax_error, r)
  call_action (some action) args kwargs r =
      call_if action.is_privileged (are_valid_arguments action.spec args kwargs) action args kwargs
        r

  abbrev pub call_in_module :
      Option (String → Option (Action R)) → String → List Value → Dict Value → R → Answer × R
  call_in_module none action_name args kwargs r = (raises syntax_error, r)
  call_in_module (some attributes) action_name args kwargs r =
      call_action (attributes action_name) args kwargs r

  abbrev pub path_of : Environment R → String → Option String
  path_of env module_name =
      if module_name == "plinth" then some "plinth" else env.import_path module_name

  abbrev pub call_at_path :
      Environment R → Option String → String → List Value → Dict Value → R → Answer × R
  call_at_path env none action_name args kwargs r = (raises syntax_error, r)
  call_at_path env (some path) action_name args kwargs r =
      call_in_module (env.import_module (str_append path ".privileged")) action_name args kwargs r

  -- _privileged_call
  unfoldable pub privileged_call :
      Environment R → String → String → List Value → Dict Value → R → Answer × R
  privileged_call env module_name action_name args kwargs r =
      if has_dot module_name
      then (raises syntax_error, r)
      else call_at_path env (path_of env module_name) action_name args kwargs r

  abbrev pub handle_parsed : Environment R → Parsed → R → Response × R
  handle_parsed env (invalid e) r = (exception_result, r)
  handle_parsed env (parsed q) r =
      let (answer, r') = privileged_call env q.module_name q.action_name q.args q.kwargs r in
      (respond q.raw_output answer, r')

  -- privileged_handle_json_request, from what json.loads makes of the request
  unfoldable pub handle_json_request : Environment R → Option Value → R → Response × R
  unfolding parse_request privileged_call
  handle_json_request env request r = handle_parsed env (parse_request request) r
