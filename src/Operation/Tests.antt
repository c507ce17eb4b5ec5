-- ===== src/Operation/Tests.antt =====
-- Runs of the operations manager, and its theorems at them.
use freedom_box.Base.{ℕ, String, ◌≡◌, refl, true, false, none, some, [], ◌∷◌, any, nat_eq}
use freedom_box.Dict.{lookup, values}
use freedom_box.Operation.Defs.{State, Thread, Request, AppInfo, Outcome, message}
use freedom_box.Operation.Manager.{
  World, ok, key_error, first_waiting, new, collect_results, filter,
}
use freedom_box.Operation.Threads.{
  create, start, settle_target, call_back, Reach, here, later, begin, finish, complete,
}
use freedom_box.Operation.Safety.{
  Reach-IsExclusive, one_at_a_time, started_once, start_world, start_world-IsExclusive,
}
use freedom_box.Operation.Progress.{never_idle}
use freedom_box.Operation.Keyed.{IsKeyed, Reach-IsKeyed}
use freedom_box.Operation.Collect.{collect_results_lem, finished, unfinished}
use freedom_box.Operation.Races.{callback_drops_new}
use freedom_box.Operation.Window.{collect_before_callback}

abbrev info : String → AppInfo
info app_id = record { name = app_id; icon = none; icon_filename = none }

-- An operation that shows its messages, one that does not, and one with the ID of the second.
abbrev setup_wiki : Request
setup_wiki = record {
  op_id = "wiki-setup";
  app_id = "wiki";
  name = "Installing app";
  show_message = true;
  show_notification = true;
}

abbrev upgrade_wiki : Request
upgrade_wiki = record {
  op_id = "wiki-force-upgrade";
  app_id = "wiki";
  name = "Updating app packages";
  show_message = false;
  show_notification = false;
}

abbrev w0 : World
w0 = start_world info

abbrev w1 : World
w1 = (new setup_wiki w0).1

abbrev w2 : World
w2 = (new upgrade_wiki w1).1

abbrev w3 : World
w3 = begin 0 w2

abbrev w4 : World
w4 = finish 0 (Outcome.returned "done") w3

abbrev w5 : World
w5 = (complete 0 w4).1

reach_w2 : Reach w0 w2
reach_w2 = later (later here (create setup_wiki)) (create upgrade_wiki)

reach_w3 : Reach w0 w3
unfolding new
reach_w3 = later reach_w2 (start 0 refl)

reach_w4 : Reach w0 w4
unfolding new begin
reach_w4 = later reach_w3 (settle_target 0 (Outcome.returned "done") refl)

reach_w5 : Reach w0 w5
unfolding new begin finish
reach_w5 = later reach_w4 (call_back 0 refl)

-- The second operation starts when the callback of the first has run.
second_runs : (w5.current ≡ some 1) × (message (w5.heap 0) ≡ some "Finished: {name}")
unfolding new begin finish complete message
second_runs = (refl, refl)

of_the_app : filter "wiki" w5 ≡ 0 ∷ 1 ∷ []
unfolding new begin finish complete filter
of_the_app = refl

one_at_a_time_example : ◌≡◌ {A = ℕ} 1 1
unfolding new begin finish complete
one_at_a_time_example = one_at_a_time info 1 1 reach_w5 refl refl

started_once_example : (w3.heap 1).thread ≡ Thread.unstarted
unfolding new begin
started_once_example = started_once info 1 reach_w3 refl

abbrev w2' : World
w2' = begin 0 w1

abbrev w3' : World
w3' = finish 0 (Outcome.raised "disk full") w2'

abbrev w4' : World
w4' = (complete 0 w3').1

abbrev reach_w4' : Reach w0 w4'
unfolding new begin finish
reach_w4' =
    later
      (later (later (later here (create setup_wiki)) (start 0 refl))
        (settle_target 0 (Outcome.raised "disk full") refl))
      (call_back 0 refl)

never_idle_example : first_waiting w4'.heap w4'.operations ≡ none
unfolding new begin finish complete reach_w4'
never_idle_example = never_idle info reach_w4' ((((tt, tt), tt), tt), refl) refl

Reach-IsKeyed_example : IsKeyed w5
Reach-IsKeyed_example = Reach-IsKeyed info reach_w5

collect_results_lem_example : collect_results "wiki" w5 ≡ (
  finished w5.heap "wiki" (values w5.operations),
  record w5 { operations = unfinished w5.heap "wiki" w5.operations },
)
collect_results_lem_example = collect_results_lem "wiki" w5 (Reach-IsKeyed info reach_w5)

-- The silent operation runs first, and its target has ended.
abbrev v1 : World
v1 = finish 0 (Outcome.returned "done") (begin 0 (new upgrade_wiki w0).1)

abbrev reach_v1 : Reach w0 v1
unfolding new begin
reach_v1 =
    later (later (later here (create upgrade_wiki)) (start 0 refl))
      (settle_target 0 (Outcome.returned "done") refl)

callback_drops_new_example :
    ((new upgrade_wiki v1).0 ≡ ok v1.next)
    × (lookup upgrade_wiki.op_id (complete 0 (new upgrade_wiki v1).1).1.operations ≡ none)
    × (((complete 0 (new upgrade_wiki v1).1).1.heap v1.next).state ≡ State.waiting)
    × (((complete 0 (new upgrade_wiki v1).1).1.heap v1.next).thread ≡ Thread.unstarted)
unfolding new begin finish
callback_drops_new_example =
    callback_drops_new 0 upgrade_wiki v1 (Reach-IsExclusive (start_world-IsExclusive info) reach_v1)
      refl refl refl refl

-- Another operation waits.
abbrev v2 : World
v2 = (new setup_wiki v1).1

abbrev reach_v2 : Reach w0 v2
reach_v2 = later reach_v1 (create setup_wiki)

collect_before_callback_example :
    let (results, left) = collect_results "wiki" v2 in
    let (reply, end) = complete 0 left in
    (any (λ x. nat_eq x 0) results ≡ true)
    × (reply ≡ key_error)
    × (end.current ≡ none)
    × (first_waiting end.heap end.operations ≡ some 1)
    × ((end.heap 1).thread ≡ Thread.unstarted)
unfolding new begin finish
collect_before_callback_example =
    collect_before_callback "wiki" 0 1 v2
      (Reach-IsExclusive (start_world-IsExclusive info) reach_v2) (Reach-IsKeyed info reach_v2) refl
      refl refl refl refl
