-- ===== src/Operation/Defs.antt =====
-- class Operation of plinth/operation.py. An operation is an object that threads and the manager
-- share, so it lives on a heap and is known by its address.
use Prim.Native.String.{◌++◌ as str_append}
use freedom_box.Base.{String, Bool, false, not, Option, none, some, ◌==◌, if◌then◌else◌}
use freedom_box.Dict.{Dict, insert}

-- Operation.State
pub data State : Type 0 where
  waiting running completed : State

-- The life of `self.thread`: created, started, inside the target, past the target with its callback
-- to come, and over.
pub data Thread : Type 0 where
  unstarted started in_target in_callback ended : Thread

pub record Operation : Type 0 where
  pub op_id : String
  pub app_id : String
  pub name : String
  pub show_message : Bool
  pub show_notification : Bool
  pub state : State
  pub return_value : Option String
  pub message : Option String
  pub exception : Option String
  pub thread : Thread

-- The arguments of Operation(...) that the manager passes on.
pub record Request : Type 0 where
  pub op_id : String
  pub app_id : String
  pub name : String
  pub show_message : Bool
  pub show_notification : Bool

-- Operation.__init__
unfoldable pub init : Request → Operation
init q = record {
  op_id = q.op_id;
  app_id = q.app_id;
  name = q.name;
  show_message = q.show_message;
  show_notification = q.show_notification;
  state = State.waiting;
  return_value = none;
  message = none;
  exception = none;
  thread = Thread.unstarted;
}

-- The truth of `str | None`.
abbrev pub is_truthy : Option String → Bool
is_truthy none = false
is_truthy (some s) = not (s == "")

abbrev state_message : State → String
state_message State.waiting = "Waiting to start: {name}"
state_message State.running = "{name}"
state_message State.completed = "Finished: {name}"

abbrev default_message : Option String → State → Option String
default_message (some e) s = some "Error: {name}: {exception}"
default_message none s = some (state_message s)

-- Operation.message
unfoldable pub message : Operation → Option String
message op = if is_truthy op.message then op.message else default_message op.exception op.state

-- What on_update does to the fields.
unfoldable pub report_on : Option String → Option String → Operation → Operation
report_on message exception op = record op {
  message = if is_truthy message then message else op.message;
  exception = elim exception [ some e ↦ some e | none ↦ op.exception ];
}

-- What the call of the target gives.
pub data Outcome : Type 0 where
  returned raised : String → Outcome

-- The part of _catch_thread_errors from the end of the target to `finally`.
unfoldable pub settle : Outcome → Operation → Operation
settle (returned v) op = record op {
  return_value = some v;
  state = State.completed;
  thread = Thread.in_callback;
}
settle (raised e) op = record op {
  exception = some e;
  state = State.completed;
  thread = Thread.in_callback;
}

-- What app.info gives for a notification.
pub record AppInfo : Type 0 where
  pub name : String
  pub icon : Option String
  pub icon_filename : Option String

-- The arguments of Notification.update_or_create, the `data` dictionary last.
pub record Notice : Type 0 where
  pub app_id : String
  pub severity : String
  pub title : String
  pub message : Option String
  pub body_template : String
  pub group : String
  pub dismissed : Bool
  pub app_name : String
  pub app_icon : Option String
  pub app_icon_filename : Option String
  pub state : String
  pub exception : Option String
  pub name : String

abbrev state_value : State → String
state_value State.waiting = "waiting"
state_value State.running = "running"
state_value State.completed = "completed"

abbrev severity : Option String → String
severity none = "info"
severity (some e) = "error"

notice : (String → AppInfo) → Operation → Notice
notice app_info op =
    let info = app_info op.app_id in
    record {
      app_id = op.app_id;
      severity = severity op.exception;
      title = info.name;
      message = message op;
      body_template = "operation-notification.html";
      group = "admin";
      dismissed = false;
      app_name = info.name;
      app_icon = info.icon;
      app_icon_filename = info.icon_filename;
      state = state_value op.state;
      exception = op.exception;
      name = str_append "translate:" op.name;
    }

-- Operation._update_notification, on the stored notifications
unfoldable pub update_notification : (String → AppInfo) → Operation → Dict Notice → Dict Notice
unfolding notice
update_notification app_info op notices =
    if op.show_notification
    then insert (str_append op.app_id "-operation") (notice app_info op) notices
    else notices

abbrev joined : Thread → Option String → Option String → Option Outcome
joined Thread.ended (some e) v = some (raised e)
joined Thread.ended none (some v) = some (returned v)
joined _ e v = none

-- Operation.join: it blocks, `none`, until the thread is over.
unfoldable pub join : Operation → Option Outcome
join op = joined op.thread op.exception op.return_value
