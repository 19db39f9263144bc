-- ===== src/Tests/Crawl.antt =====
-- Examples for sending, handling and completing tasks.
use project_arachne.Prelude.{
  ◌≡◌, ◌<◌, ◌≤◌, refl, List, [], ◌∷◌, In, Text, codes, true, false, none, some, lookup, insert,
  arith, list_eq, nat_eq,
}
use project_arachne.Strings.{is_empty, has_prefix, trim_space, trim_left, is_space, up_to, cut_at}
use project_arachne.Urlnorm.{
  Url, empty_url, NetUrl, strip_tracking, canonical_host, canonical, canonical_url, resolved,
  absolute, before_quote, canonical_name, trim_dot, with_port, is_default_port, final_url, rooted,
  cleared,
}
use project_arachne.Domain.{Run, Task, ensure_id, task_id}
use project_arachne.RunStates.{pos, queued, holds_lease, admit_task, complete_task}
use project_arachne.RunStates.Counts.{IsCounted, queued_count}
use project_arachne.Processor.{
  answered, lost, call, System, Weather, sent, redis_failed, failed, run_limit_exceeded,
  invalid_url, run_not_active, send_task, admit_and_produce, after_admission, produce,
}
use project_arachne.Processor.Sending.{IsKnown, Sends, send_task-Sends}
use project_arachne.Processor.Stranded.{send_task-stranded}
use project_arachne.Crawler.{
  Visit, next_of, child, after_answer, send_loop, send_children, complete,
}
use project_arachne.Crawler.Children.{AllAccounted, send_children-AllAccounted}
use project_arachne.Crawler.Completion.{IsFreed, complete-finishes}

-- Every text is the URL http://h/ with the text for its path, and a URL prints its path.
abbrev toy_url : Text → Url
toy_url path = record empty_url { scheme = codes "http"; host = codes "h"; path = path }

abbrev toy_net : NetUrl
toy_net = record {
  parse = λ raw. some (toy_url raw);
  hostname = λ u. u.host;
  port = λ u. [];
  resolve = λ base ref. base;
  to_string = λ u. u.path;
  to_ascii = λ name. some name;
  lower = λ c. c;
}

abbrev digest : Text → Text
digest bytes = bytes

abbrev run_a : Run
run_a = record {
  id = codes "a";
  use_cache_flag = false;
  max_depth = 3;
  max_links = 10;
  extra_flags = none;
  start_url = codes "/";
}

abbrev page_task : Task
page_task = record {
  id = codes "t";
  url = codes "/";
  current_depth = 0;
  run = run_a;
  has_ack = true;
}

-- The run holds its slot until time 1000, and its first task is queued.
abbrev started : System
started = record {
  store = record {
    slots = (codes "a", 1000) ∷ [];
    runs = λ _. record {
      tasks = (codes "t", queued) ∷ [];
      active_tasks = pos 1;
      current_links = pos 1;
    };
  };
  queue = [];
}

abbrev fair : Weather
fair = record { now = 10; admitting = answered; undoing = answered; produced = true }

abbrev foul : Weather
foul = record fair { produced = false }

send_task-Sends_example :
    (3 ≤ 0
      → ((send_task toy_net digest fair page_task started).0 ≡ failed run_limit_exceeded)
        × ((send_task toy_net digest fair page_task started).1 ≡ started))
    × (0 < 3
        → canonical toy_net (codes "/") none ≡ none
        → ((send_task toy_net digest fair page_task started).0 ≡ failed invalid_url)
          × ((send_task toy_net digest fair page_task started).1 ≡ started))
    × ((url : Text)
        → 0 < 3
        → canonical toy_net (codes "/") none ≡ some url
        → Sends fair
            (ensure_id digest (record page_task { url = url }))
            started
            (send_task toy_net digest fair page_task started).0
            (send_task toy_net digest fair page_task started).1)
send_task-Sends_example = send_task-Sends toy_net digest fair page_task started

abbrev two_links : List (Text × Weather)
two_links = (codes "/x", fair) ∷ (codes "/y", fair) ∷ []

two_links-sent : (send_children toy_net digest page_task two_links started).not_sent ≡ false
unfolding send_children send_loop after_answer next_of child send_task admit_and_produce
    after_admission produce call admit_task holds_lease lookup insert canonical trim_space trim_left
    is_space is_empty has_prefix resolved before_quote up_to absolute canonical_url canonical_host
    canonical_name cut_at trim_dot with_port is_default_port final_url rooted cleared strip_tracking
    ensure_id task_id
two_links-sent = refl

two_links-active :
    ¬ In (failed run_not_active) (send_children toy_net digest page_task two_links started).answers
unfolding send_children send_loop after_answer next_of child send_task admit_and_produce
    after_admission produce call admit_task holds_lease lookup insert canonical trim_space trim_left
    is_space is_empty has_prefix resolved before_quote up_to absolute canonical_url canonical_host
    canonical_name cut_at trim_dot with_port is_default_port final_url rooted cleared strip_tracking
    ensure_id task_id
two_links-active h = ground arith

send_children-AllAccounted_example :
    AllAccounted toy_net digest page_task
      (send_children toy_net digest page_task two_links started).system
      two_links
      (send_children toy_net digest page_task two_links started).answers
send_children-AllAccounted_example =
    send_children-AllAccounted toy_net digest page_task two_links started (omega arith)
      two_links-sent two_links-active

-- The page has one link, which the queue refuses.
abbrev unlucky : Visit
unlucky = record {
  now = 20;
  done_at = 25;
  lease = 50;
  asking = answered;
  cached = none;
  loaded = some ((codes "/x", foul) ∷ []);
  completing = answered;
  releasing = answered;
  cleaning = answered;
}

-- The page has no links.
abbrev lucky : Visit
lucky = record unlucky { loaded = some [] }

started-IsCounted : IsCounted (started.store.runs (codes "a"))
unfolding queued_count lookup
started-IsCounted = record { distinct = (refl, tt); active = refl; links = refl }

complete-finishes_example :
    let s' = (complete_task (codes "a") (codes "t") 50 25 started.store).2 in
    (0 < queued_count (s'.runs (codes "a")).tasks → (complete lucky page_task started.store).1 ≡ s')
    × (queued_count (s'.runs (codes "a")).tasks ≡ 0
        → IsFreed lucky (codes "a") s' (complete lucky page_task started.store).1)
unfolding complete_task lookup
complete-finishes_example =
    complete-finishes lucky page_task started.store started-IsCounted refl refl

-- The link /x is admitted, but the answer is lost.
abbrev unanswered : Weather
unanswered = record fair { admitting = lost }

abbrev link_x : Task
link_x = record page_task { id = codes "x"; url = codes "/x"; current_depth = 1 }

x-canonical : canonical toy_net (codes "/x") none ≡ some (codes "/x")
unfolding canonical trim_space trim_left is_space is_empty has_prefix resolved before_quote up_to
    absolute canonical_url canonical_host canonical_name cut_at trim_dot with_port is_default_port
    final_url rooted cleared strip_tracking
x-canonical = refl

send_task-stranded_example :
    let (first, sys') = send_task toy_net digest unanswered link_x started in
    let (second, sys'') = send_task toy_net digest fair link_x sys' in
    (first ≡ failed redis_failed)
    × (second ≡ sent)
    × (sys''.queue ≡ [])
    × IsKnown (ensure_id digest link_x) sys''.store
unfolding ensure_id is_empty holds_lease lookup
send_task-stranded_example =
    send_task-stranded toy_net digest unanswered fair link_x (codes "/x") started (omega arith)
      x-canonical refl refl refl refl refl refl
