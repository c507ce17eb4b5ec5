-- ===== src/Actions/Tests.antt =====
-- A module of one method that sets a password, and requests for it.
use freedom_box.Base.{
  ℕ, suc, String, ◌≡◌, ◌↔◌, ◌⊎◌, inl, inr, refl, true, false, Option, none, some, [], ◌∷◌, ◌==◌,
  if◌then◌else◌,
}
use freedom_box.Actions.Values.{
  Value, null, boolean, text, list, dict, Items, end, field, Annotation, Annotations, int_type,
  str_type, secret_str, none_type, union, list_of,
}
use freedom_box.Actions.Check.{ArgSpec, is_valid_type, are_valid_arguments}
use freedom_box.Actions.Typing.{HasType, is_valid_type_iff}
use freedom_box.Actions.Binding.{Binding, bind_arguments, IsTyped, are_valid_arguments-IsTyped}
use freedom_box.Actions.Call.{
  Environment, Action, Request, Answer, value, success_result, exception_result, respond, parsed,
  parse_request, handle_json_request, privileged_call, has_dot,
}
use freedom_box.Actions.Safe.{Called, handle_json_request-Called}
use freedom_box.Actions.Log.{Signature, check_signature, is_sensitive, is_secret, format_args}
use freedom_box.Actions.Secrets.{format_args_hides}

abbrev optional_names : Annotation
optional_names =
    union (Annotations.cons (list_of str_type) (Annotations.cons none_type Annotations.nil))

is_valid_type_iff_example :
    (is_valid_type optional_names (list (Items.cons (text "a") Items.nil)) ≡ true)
    ↔ HasType optional_names (list (Items.cons (text "a") Items.nil))
is_valid_type_iff_example =
    is_valid_type_iff optional_names (list (Items.cons (text "a") Items.nil))

-- A bool passes for an int, and an int does not pass for a text.
bool_as_int : is_valid_type int_type (boolean true) ≡ true
unfolding is_valid_type
bool_as_int = refl

abbrev set_password : ArgSpec
set_password = record {
  args =
      record { name = "user"; annotation = str_type }
      ∷ record { name = "password"; annotation = secret_str }
      ∷ record { name = "groups"; annotation = optional_names }
      ∷ [];
  defaults = 1;
}

are_valid_arguments-IsTyped_example :
    (b : Binding) × (bind_arguments set_password
        (text "tester" ∷ [])
        (("password", text "1234") ∷ [])
      ≡ some b)
    × IsTyped b
unfolding are_valid_arguments is_valid_type
are_valid_arguments-IsTyped_example =
    are_valid_arguments-IsTyped set_password (text "tester" ∷ []) (("password", text "1234") ∷ [])
      (refl, (refl, (refl, tt))) refl

abbrev users : String → Option (Action ℕ)
users name =
    if name == "set_password"
    then some (record {
      is_privileged = true;
      spec = set_password;
      distinct = (refl, (refl, (refl, tt)));
      call = λ args kwargs calls. (value null, suc calls);
    })
    else none

abbrev env : Environment ℕ
env = record {
  import_path = λ name. if name == "users" then some "plinth.modules.users" else none;
  import_module = λ path. if path == "plinth.modules.users.privileged" then some users else none;
}

abbrev request : String → Value
request password = dict (
    field "module" (text "users") (
      field "action" (text "set_password") (
        field "args" (list (Items.cons (text "tester") Items.nil))
          (field "kwargs" (dict (field "password" (text password) end)) end))))

handle_json_request-Called_example :
    ((handle_json_request env (some (request "1234")) 0).0 ≡ exception_result)
      × ((handle_json_request env (some (request "1234")) 0).1 ≡ 0)
    ⊎ ((q : Request) × (a : Answer) × (parse_request (some (request "1234")) ≡ parsed q)
        × Called env q 0 a (handle_json_request env (some (request "1234")) 0).1
        × ((handle_json_request env (some (request "1234")) 0).0 ≡ respond q.raw_output a))
handle_json_request-Called_example = handle_json_request-Called env (some (request "1234")) 0

-- The method is called once.
accepted : handle_json_request env (some (request "1234")) 0 ≡ (success_result null, 1)
unfolding handle_json_request parse_request privileged_call are_valid_arguments is_valid_type
    has_dot
accepted = refl

abbrev signature : Signature
signature = record {
  parameters =
      ("user", some str_type)
      ∷ ("password", some secret_str)
      ∷ ("groups", some optional_names)
      ∷ [];
  defaults = 1;
  has_variable = false;
}

abbrev dumps : Value → String
dumps v = elim v [ text s ↦ s | _ ↦ "null" ]

format_args_hides_example :
    format_args dumps set_password (text "tester" ∷ []) (("password", text "1234") ∷ [])
    ≡ format_args dumps set_password (text "tester" ∷ []) (("password", text "other") ∷ [])
unfolding check_signature is_sensitive is_secret
format_args_hides_example =
    format_args_hides dumps signature set_password (text "tester" ∷ []) (text "tester" ∷ [])
      (("password", text "1234") ∷ []) (("password", text "other") ∷ []) refl (inr refl, tt)
      (refl, inl refl, tt)

logged :
    format_args dumps set_password (text "tester" ∷ []) (("password", text "1234") ∷ [])
    ≡ some ("tester" ∷ "password=****" ∷ [])
unfolding format_args is_secret
logged = refl
