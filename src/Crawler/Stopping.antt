-- ===== src/Crawler/Stopping.antt =====
-- When the loop of `sendChildren` of internal/webcrawler/crawler_repo.go gives up, and that a full run
-- stays full until then.
use project_arachne.Prelude.{
  ◌≡◌, ◌≢◌, refl, ◌⊎◌, inl, inr, List, [], ◌∷◌, Bool, true, Text, list_eq, nat_eq, In,
}
use project_arachne.Urlnorm.{NetUrl}
use project_arachne.Domain.{Task}
use project_arachne.Processor.{
  System, Weather, run_limit_exceeded, invalid_url, run_not_active, redis_failed, not_queued,
  SendResult, sent, failed, send_task,
}
use project_arachne.Processor.Keeping.{IsFull, send_task-IsFull}
use project_arachne.Crawler.{after_answer, next_of, child, Sending, send_loop}

-- The loop reports a failure, or it met an inactive run.
abbrev pub Stops : Sending → Type 0
Stops r = (r.not_sent ≡ true) ⊎ In (failed run_not_active) r.answers

pub Stops-cons :
    (a : SendResult) (r : Sending) → Stops r → Stops (record r { answers = a ∷ r.answers })
Stops-cons a r (inl h) = inl h
Stops-cons a r (inr h) = inr (inr h)

after_answer-Stops :
    (a : SendResult) (sys : System) (rest : Bool → Sending)
    → Stops (rest true)
    → Stops (after_answer (next_of a) a sys true rest)
unfolding after_answer next_of
after_answer-Stops sent sys rest h = Stops-cons sent (rest true) h
after_answer-Stops (failed run_limit_exceeded) sys rest h = Stops-cons _ (rest true) h
after_answer-Stops (failed invalid_url) sys rest h = Stops-cons _ (rest true) h
after_answer-Stops (failed run_not_active) sys rest h = inr (inl refl)
after_answer-Stops (failed redis_failed) sys rest h = Stops-cons _ (rest true) h
after_answer-Stops (failed not_queued) sys rest h = Stops-cons _ (rest true) h

-- Once a failure is noted, the loop reports it, unless the run turns out to be inactive.
pub noted-Stops :
    (net : NetUrl) (digest : Text → Text) (parent : Task) (links : List (Text × Weather))
    (sys : System)
    → Stops (send_loop net digest parent links true sys)
unfolding send_loop
noted-Stops net digest parent [] sys = inl refl
noted-Stops net digest parent ((link, w) ∷ links) sys =
    let (answer, sys') = send_task net digest w (child parent link) sys in
    after_answer-Stops answer sys' (λ b. send_loop net digest parent links b sys')
      (noted-Stops net digest parent links sys')

-- The loop gives up, or the run is full behind it.
abbrev pub StaysFull : Task → Sending → Type 0
StaysFull parent r = Stops r ⊎ IsFull parent.run.id parent.run.max_links r.system.store

StaysFull-cons :
    (parent : Task) (a : SendResult) (r : Sending)
    → StaysFull parent r
    → StaysFull parent (record r { answers = a ∷ r.answers })
StaysFull-cons parent a r (inl s) = inl (Stops-cons a r s)
StaysFull-cons parent a r (inr f) = inr f

module _ (net : NetUrl) (digest : Text → Text) (parent : Task) where
  -- A full run is full behind the rest of the loop, unless the loop reports a failure.
  after_answer-IsFull :
      (a : SendResult) (sys : System) (noted : Bool) (rest : Bool → Sending)
      → (a ≢ failed not_queued → IsFull parent.run.id parent.run.max_links sys.store)
      → Stops (rest true)
      → ((b : Bool)
          → IsFull parent.run.id parent.run.max_links sys.store
          → StaysFull parent (rest b))
      → StaysFull parent (after_answer (next_of a) a sys noted rest)
  unfolding after_answer next_of
  after_answer-IsFull sent sys noted rest full s h =
      StaysFull-cons parent sent (rest noted) (h noted (full (λ e. cc)))
  after_answer-IsFull (failed run_limit_exceeded) sys noted rest full s h =
      StaysFull-cons parent _ (rest noted) (h noted (full (λ e. cc)))
  after_answer-IsFull (failed invalid_url) sys noted rest full s h =
      StaysFull-cons parent _ (rest noted) (h noted (full (λ e. cc)))
  after_answer-IsFull (failed run_not_active) sys noted rest full s h = inl (inr (inl refl))
  after_answer-IsFull (failed redis_failed) sys noted rest full s h =
      inl (Stops-cons _ (rest true) s)
  after_answer-IsFull (failed not_queued) sys noted rest full s h = inl (Stops-cons _ (rest true) s)

  pub send_loop-IsFull :
      (links : List (Text × Weather)) (noted : Bool) (sys : System)
      → IsFull parent.run.id parent.run.max_links sys.store
      → StaysFull parent (send_loop net digest parent links noted sys)
  unfolding send_loop
  send_loop-IsFull [] noted sys full = inr full
  send_loop-IsFull ((link, w) ∷ links) noted sys full =
      let (answer, sys') = send_task net digest w (child parent link) sys in
      after_answer-IsFull answer sys' noted (λ b. send_loop net digest parent links b sys')
        (λ ok.
          send_task-IsFull parent.run.id parent.run.max_links net digest w (child parent link) sys
            ok full)
        (noted-Stops net digest parent links sys') (λ b full'. send_loop-IsFull links b sys' full')
