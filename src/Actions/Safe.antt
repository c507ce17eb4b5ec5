-- ===== src/Actions/Safe.antt =====
-- What a request can reach.
use freedom_box.Base.{
  String, ◌≡◌, ◌⊎◌, inl, inr, refl, ap, Bool, true, false, Bool-cases, Option, Option-cases, some,
}
use Prim.Native.String.{◌++◌ as str_append}
use freedom_box.Actions.Values.{Value}
use freedom_box.Actions.Check.{are_valid_arguments}
use freedom_box.Actions.Binding.{Binding, bind_arguments, IsTyped, are_valid_arguments-IsTyped}
use freedom_box.Actions.Call.{
  Error, syntax_error, type_error, Environment, Action, Request, Parsed, parsed, invalid, Answer,
  raises, answer_of, call_if, path_of, privileged_call, handle_parsed, handle_json_request,
  parse_request, has_dot, exception_result, respond,
}

module _ {R : Type 0} (env : Environment R) where
  -- The request named a method marked as privileged, in the `privileged` module that the loader gives
  -- for the name of the request, its arguments bind with each value of its parameter's type, and the
  -- state is what one call of it leaves.
  pub record Called (q : Request) (r : R) (answer : Answer) (r' : R) : Type 0 where
    pub path : String
    pub found : path_of env q.module_name ≡ some path
    pub plain : has_dot q.module_name ≡ false
    pub attributes : String → Option (Action R)
    pub imported : env.import_module (str_append path ".privileged") ≡ some attributes
    pub action : Action R
    pub named : attributes q.action_name ≡ some action
    pub marked : action.is_privileged ≡ true
    pub binding : Binding
    pub bound : bind_arguments action.spec q.args q.kwargs ≡ some binding
    pub typed : IsTyped binding
    pub left : r' ≡ (action.call q.args q.kwargs r).1
    pub answered : answer ≡ answer_of (action.call q.args q.kwargs r).0

  -- The call raised without changing the state, or it is such a call.
  abbrev Outcome : Request → R → Answer × R → Type 0
  Outcome q r (answer, r') = ((e : Error) × (answer ≡ raises e) × (r' ≡ r)) ⊎ Called q r answer r'

  call_if-Outcome :
      (q : Request) (r : R) (path : String)
      → path_of env q.module_name ≡ some path
      → has_dot q.module_name ≡ false
      → (attributes : String → Option (Action R))
      → env.import_module (str_append path ".privileged") ≡ some attributes
      → (action : Action R) → attributes q.action_name ≡ some action
      → (marked valid : Bool) → action.is_privileged ≡ marked
      → are_valid_arguments action.spec q.args q.kwargs ≡ valid
      → Outcome q r (call_if marked valid action q.args q.kwargs r)
  call_if-Outcome q r path found plain attributes imported action named false valid m v =
      inl (syntax_error, refl, refl)
  call_if-Outcome q r path found plain attributes imported action named true false m v =
      inl (type_error, refl, refl)
  call_if-Outcome q r path found plain attributes imported action named true true m v =
      let (b, bound, typed) =
        are_valid_arguments-IsTyped action.spec q.args q.kwargs action.distinct v in
      inr (record {
        path = path;
        found = found;
        plain = plain;
        attributes = attributes;
        imported = imported;
        action = action;
        named = named;
        marked = m;
        binding = b;
        bound = bound;
        typed = typed;
        left = refl;
        answered = refl;
      })

  privileged_call-Outcome :
      (q : Request) (r : R)
      → Outcome q r (privileged_call env q.module_name q.action_name q.args q.kwargs r)
  unfolding privileged_call
  privileged_call-Outcome q r = elim (Bool-cases (has_dot q.module_name)) [
    | inl dot ↦ rw dot (inl (syntax_error, refl, refl))
    | inr plain ↦ rw plain (elim (Option-cases (path_of env q.module_name)) [
      | inl missing ↦ rw missing (inl (syntax_error, refl, refl))
      | inr (path, found) ↦
          rw found (elim (Option-cases (env.import_module (str_append path ".privileged"))) [
            | inl missing ↦ rw missing (inl (syntax_error, refl, refl))
            | inr (attributes, imported) ↦
                rw imported (elim (Option-cases (attributes q.action_name)) [
                  | inl missing ↦ rw missing (inl (syntax_error, refl, refl))
                  | inr (action, named) ↦ rw named (
                      call_if-Outcome q r path found plain attributes imported action named _ _ refl
                        refl)
                ])
          ])
    ])
  ]

  handle_parsed_cases :
      (o : Parsed) (r : R)
      → ((handle_parsed env o r).0 ≡ exception_result) × ((handle_parsed env o r).1 ≡ r)
        ⊎ ((q : Request) × (a : Answer) × (o ≡ parsed q)
            × Called q r a (handle_parsed env o r).1
            × ((handle_parsed env o r).0 ≡ respond q.raw_output a))
  handle_parsed_cases (invalid e) r = inl (refl, refl)
  handle_parsed_cases (parsed q) r = elim (privileged_call-Outcome q r) [
    | inl (e, refused, same) ↦ inl (ap (respond q.raw_output) refused, same)
    | inr called ↦ inr (q, _, refl, called, refl)
  ]

-- A request is answered with an exception, and nothing was called, or it names a method that the
-- decorator has marked, in the module `privileged` that the loader has for its module name, which has
-- no dot, and its arguments bind to the method's parameters, each of its type: then the state is what
-- one call of the method leaves, and the response is what the method gives, but an exception for a
-- reader that was not asked for.
pub handle_json_request-Called :
    {R : Type 0} (env : Environment R) (request : Option Value) (r : R)
    → ((handle_json_request env request r).0 ≡ exception_result)
        × ((handle_json_request env request r).1 ≡ r)
      ⊎ ((q : Request) × (a : Answer) × (parse_request request ≡ parsed q)
          × Called env q r a (handle_json_request env request r).1
          × ((handle_json_request env request r).0 ≡ respond q.raw_output a))
unfolding handle_json_request
handle_json_request-Called env request r = handle_parsed_cases env (parse_request request) r
