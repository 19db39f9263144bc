-- ===== src/Tests/App.antt =====
-- Examples for a run's message.
use project_arachne.Prelude.{
  ◌≡◌, ◌⊎◌, refl, [], ◌∷◌, In, Text, codes, true, false, none, some, lookup, insert, list_eq,
  nat_eq,
}
use project_arachne.Strings.{is_empty, has_prefix, trim_space, trim_left, is_space, up_to, cut_at}
use project_arachne.Urlnorm.{
  empty_url, NetUrl, strip_tracking, canonical_host, canonical, canonical_url, resolved, absolute,
  before_quote, canonical_name, trim_dot, with_port, is_default_port, final_url, rooted, cleared,
  from_user_input, has_scheme, scheme_chars, scheme_rest,
}
use project_arachne.Domain.{Run, ensure_id, task_id}
use project_arachne.RunStates.{pos, acquire_run_slot, admit_task, holds_lease}
use project_arachne.Processor.{
  answered, call, send_task, admit_and_produce, after_admission, produce,
}
use project_arachne.App.{
  Platform, Chance, queue_run, try_slot, wait_for_run_slot, first_task, after_sending, dispatch,
  after_waiting, start_run, process_run,
}
use project_arachne.App.Runs.{IsUseless, IsStarted, process_run-IsKept}

-- Every text is the URL http://h/ with the text for its path, and a URL prints its path.
abbrev toy_net : NetUrl
toy_net = record {
  parse = λ raw. some (record empty_url { scheme = codes "http"; host = codes "h"; path = raw });
  hostname = λ u. u.host;
  port = λ u. [];
  resolve = λ base ref. base;
  to_string = λ u. u.path;
  to_ascii = λ name. some name;
  lower = λ c. c;
}

abbrev digest : Text → Text
digest bytes = bytes

abbrev run_a : Run
run_a = record {
  id = codes "a";
  use_cache_flag = false;
  max_depth = 3;
  max_links = 10;
  extra_flags = none;
  start_url = codes "h.org";
}

abbrev fresh : Platform
fresh = record {
  system = record {
    store = record {
      slots = [];
      runs = λ _. record { tasks = []; active_tasks = pos 0; current_links = pos 0 };
    };
    queue = [];
  };
  run_queue = [];
}

abbrev fair : Chance
fair = record {
  max_concurrent = 2;
  lease = 100;
  tries = (answered, 10) ∷ [];
  sending = record { now = 10; admitting = answered; undoing = answered; produced = true };
  releasing = answered;
  stopped_waiting = false;
  stopped_sending = false;
  queue_closed = false;
  requeued = true;
}

fair-finished : (process_run toy_net digest fair run_a fresh).0 ≡ true
unfolding process_run start_run wait_for_run_slot try_slot after_waiting dispatch first_task
    after_sending queue_run from_user_input has_scheme scheme_chars scheme_rest acquire_run_slot
    admit_task holds_lease call send_task admit_and_produce after_admission produce lookup insert
    canonical trim_space trim_left is_space is_empty has_prefix resolved before_quote up_to absolute
    canonical_url canonical_host canonical_name cut_at trim_dot with_port is_default_port final_url
    rooted cleared strip_tracking ensure_id task_id
fair-finished = refl

process_run-IsKept_example :
    IsUseless toy_net run_a
    ⊎ (In run_a (process_run toy_net digest fair run_a fresh).1.run_queue
        ⊎ IsStarted toy_net digest run_a fresh.system
            (process_run toy_net digest fair run_a fresh).1)
process_run-IsKept_example =
    process_run-IsKept toy_net digest fair run_a fresh.system [] fair-finished refl
