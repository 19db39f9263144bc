-- ===== src/Crawler/Children.antt =====
-- What `sendChildren` of internal/webcrawler/crawler_repo.go leaves behind: every link is accounted for.
use project_arachne.Prelude.{
  ◌<◌, ◌+◌, ◌≡◌, refl, sym, subst, ◌⊎◌, inl, inr, List, [], ◌∷◌, Bool, true, false, none, some, leb,
  Text, arith, list_eq, nat_eq, Option-cases, In,
}
use project_arachne.Urlnorm.{NetUrl, canonical}
use project_arachne.Domain.{Task, Run, ensure_id}
use project_arachne.Processor.{
  System, Weather, run_limit_exceeded, invalid_url, run_not_active, redis_failed, not_queued,
  SendResult, sent, failed, send_task,
}
use project_arachne.Processor.Keeping.{IsFull, send_task-Keeps}
use project_arachne.Processor.Sending.{IsKnown, Sends, send_task-Sends}
use project_arachne.Crawler.Stopping.{Stops, Stops-cons, noted-Stops, StaysFull, send_loop-IsFull}
use project_arachne.Crawler.{
  after_answer, Next, goes_on, notes_failure, returns, next_of, child, Sending, send_loop,
  send_children,
}

-- The task that `SendTask` makes of a link.
abbrev pub sent_as : (Text → Text) → Task → Text → Task
sent_as digest t url = ensure_id digest (record t { url = url })

-- What an answer says of a link in the system behind all sends: a link that was sent is known there, and
-- where one was refused for a limit, the run has as many links as it may have.
abbrev pub Accounted : NetUrl → (Text → Text) → Task → System → Text → SendResult → Type 0
Accounted net digest parent sys link sent =
    (url : Text)
    → canonical net link none ≡ some url
    → IsKnown (sent_as digest (child parent link) url) sys.store
Accounted net digest parent sys link (failed run_limit_exceeded) =
    IsFull parent.run.id parent.run.max_links sys.store
Accounted net digest parent sys link (failed invalid_url) = canonical net link none ≡ none
Accounted net digest parent sys link (failed run_not_active) = ⊥
Accounted net digest parent sys link (failed redis_failed) = ⊥
Accounted net digest parent sys link (failed not_queued) = ⊥

-- Each link with its answer.
abbrev pub AllAccounted :
    NetUrl → (Text → Text) → Task → System → List (Text × Weather) → List SendResult → Type 0
AllAccounted net digest parent sys [] [] = Unit {0}
AllAccounted net digest parent sys [] (a ∷ answers) = ⊥
AllAccounted net digest parent sys (l ∷ links) [] = ⊥
AllAccounted net digest parent sys ((link, w) ∷ links) (a ∷ answers) =
    Accounted net digest parent sys link a × AllAccounted net digest parent sys links answers

ensure_id-run : (digest : Text → Text) (t : Task) → (ensure_id digest t).run ≡ t.run
unfolding ensure_id
ensure_id-run digest t = ground arith

after_answer-Keeps :
    (u : Task) (n : Next) (a : SendResult) (sys : System) (noted : Bool) (rest : Bool → Sending)
    → IsKnown u sys.store
    → ((b : Bool) → IsKnown u (rest b).system.store)
    → IsKnown u (after_answer n a sys noted rest).system.store
unfolding after_answer
after_answer-Keeps u goes_on a sys noted rest known h = h noted
after_answer-Keeps u notes_failure a sys noted rest known h = h true
after_answer-Keeps u returns a sys noted rest known h = known

send_loop-Keeps :
    (net : NetUrl) (digest : Text → Text) (parent u : Task) (links : List (Text × Weather))
    (noted : Bool) (sys : System)
    → IsKnown u sys.store
    → IsKnown u (send_loop net digest parent links noted sys).system.store
unfolding send_loop
send_loop-Keeps net digest parent u [] noted sys known = known
send_loop-Keeps net digest parent u ((link, w) ∷ links) noted sys known =
    let (answer, sys') = send_task net digest w (child parent link) sys in
    let known' = send_task-Keeps net digest w (child parent link) u sys known in
    after_answer-Keeps u (next_of answer) answer sys' noted _ known'
      (λ b. send_loop-Keeps net digest parent u links b sys' known')

module _ (net : NetUrl) (digest : Text → Text) (parent : Task) where
  -- What holds of a link right behind its own send.
  Accounted-send :
      (w : Weather) (link : Text) (sys : System)
      → parent.current_depth + 1 < parent.run.max_depth
      → (a : SendResult) → (send_task net digest w (child parent link) sys).0 ≡ a
      → next_of a ≡ goes_on
      → Accounted net digest parent (send_task net digest w (child parent link) sys).1 link a
  unfolding next_of child
  Accounted-send w link sys shallow sent e g = λ url good.
      (subst
        (λ a.
          Sends w (sent_as digest (child parent link) url) sys a
            (send_task net digest w (child parent link) sys).1)
        e ((send_task-Sends net digest w (child parent link) sys).2 url shallow good)).0
  Accounted-send w link sys shallow (failed run_limit_exceeded) e g =
      elim (Option-cases (canonical net link none)) [
        | inl bad ↦ cc (((send_task-Sends net digest w (child parent link) sys).1 shallow bad).0, e)
        | inr (url, good) ↦
            let (same, full) =
              subst
                (λ a.
                  Sends w (sent_as digest (child parent link) url) sys a
                    (send_task net digest w (child parent link) sys).1)
                e ((send_task-Sends net digest w (child parent link) sys).2 url shallow good) in
            subst (λ (s : System). IsFull parent.run.id parent.run.max_links s.store) (sym same)
              (subst (λ (r : Run). IsFull r.id r.max_links sys.store)
                (ensure_id-run digest (record (child parent link) { url = url })) full)
      ]
  Accounted-send w link sys shallow (failed invalid_url) e g =
      elim (Option-cases (canonical net link none)) [
        | inl bad ↦ bad
        | inr (url, good) ↦ absurd (
            subst
              (λ a.
                Sends w (sent_as digest (child parent link) url) sys a
                  (send_task net digest w (child parent link) sys).1)
              e ((send_task-Sends net digest w (child parent link) sys).2 url shallow good))
      ]
  Accounted-send w link sys shallow (failed run_not_active) e g = cc
  Accounted-send w link sys shallow (failed redis_failed) e g = cc
  Accounted-send w link sys shallow (failed not_queued) e g = cc

  Accounted-keeps :
      (link : Text) (s : System) (r : Sending) (a : SendResult)
      → ((u : Task) → IsKnown u s.store → IsKnown u r.system.store)
      → (IsFull parent.run.id parent.run.max_links s.store → StaysFull parent r)
      → Accounted net digest parent s link a
      → Stops r ⊎ Accounted net digest parent r.system link a
  Accounted-keeps link s r sent k f h =
      inr (λ url good. k (sent_as digest (child parent link) url) (h url good))
  Accounted-keeps link s r (failed run_limit_exceeded) k f h = f h
  Accounted-keeps link s r (failed invalid_url) k f h = inr h
  Accounted-keeps link s r (failed run_not_active) k f h = absurd h
  Accounted-keeps link s r (failed redis_failed) k f h = absurd h
  Accounted-keeps link s r (failed not_queued) k f h = absurd h

  abbrev Done : List (Text × Weather) → Sending → Type 0
  Done links r = Stops r ⊎ AllAccounted net digest parent r.system links r.answers

  Done-cons :
      (link : Text) (w : Weather) (links : List (Text × Weather)) (a : SendResult) (r : Sending)
      → Stops r ⊎ Accounted net digest parent r.system link a
      → Done links r
      → Done ((link, w) ∷ links) (record r { answers = a ∷ r.answers })
  Done-cons link w links a r h (inl s) = inl (Stops-cons a r s)
  Done-cons link w links a r (inl s) (inr d) = inl (Stops-cons a r s)
  Done-cons link w links a r (inr h) (inr d) = inr (h, d)

  after_answer-Done :
      (link : Text) (w : Weather) (links : List (Text × Weather)) (a : SendResult) (sys : System)
      (noted : Bool) (rest : Bool → Sending)
      → (next_of a ≡ goes_on
          → Stops (rest noted) ⊎ Accounted net digest parent (rest noted).system link a)
      → Stops (rest true)
      → Done links (rest noted)
      → Done ((link, w) ∷ links) (after_answer (next_of a) a sys noted rest)
  unfolding after_answer next_of
  after_answer-Done link w links sent sys noted rest h s d =
      Done-cons link w links sent (rest noted) (h refl) d
  after_answer-Done link w links (failed run_limit_exceeded) sys noted rest h s d =
      Done-cons link w links _ (rest noted) (h refl) d
  after_answer-Done link w links (failed invalid_url) sys noted rest h s d =
      Done-cons link w links _ (rest noted) (h refl) d
  after_answer-Done link w links (failed run_not_active) sys noted rest h s d = inl (inr (inl refl))
  after_answer-Done link w links (failed redis_failed) sys noted rest h s d =
      inl (Stops-cons _ (rest true) s)
  after_answer-Done link w links (failed not_queued) sys noted rest h s d =
      inl (Stops-cons _ (rest true) s)

  send_loop-Done :
      (links : List (Text × Weather)) (noted : Bool) (sys : System)
      → parent.current_depth + 1 < parent.run.max_depth
      → Done links (send_loop net digest parent links noted sys)
  unfolding send_loop
  send_loop-Done [] noted sys shallow = inr tt
  send_loop-Done ((link, w) ∷ links) noted sys shallow =
      let (answer, sys') = send_task net digest w (child parent link) sys in
      after_answer-Done link w links answer sys' noted
        (λ b. send_loop net digest parent links b sys')
        (λ g.
          Accounted-keeps link sys' (send_loop net digest parent links noted sys') answer
            (λ u. send_loop-Keeps net digest parent u links noted sys')
            (send_loop-IsFull net digest parent links noted sys')
            (Accounted-send w link sys shallow answer refl g))
        (noted-Stops net digest parent links sys') (send_loop-Done links noted sys' shallow)

  send_children_loop :
      (links : List (Text × Weather)) (sys : System)
      → parent.current_depth + 1 < parent.run.max_depth
      → send_children net digest parent links sys ≡ send_loop net digest parent links false sys
  unfolding send_children
  send_children_loop links sys shallow = rw (not_deep shallow)
    where
      not_deep :
          parent.current_depth + 1 < parent.run.max_depth
          → leb parent.run.max_depth (parent.current_depth + 1) ≡ false
      not_deep h = ground arith

  -- Where the links of a page are within the depth of the run: when `sendChildren` reports no failure
  -- and met no inactive run, every link of the page is accounted for: it is not crawlable, or
  -- it was refused and the run has as many links as it may have, or its task is in the hash of the
  -- run, where completion counts it down.
  pub send_children-AllAccounted :
      (links : List (Text × Weather)) (sys : System)
      → parent.current_depth + 1 < parent.run.max_depth
      → (send_children net digest parent links sys).not_sent ≡ false
      → ¬ In (failed run_not_active) (send_children net digest parent links sys).answers
      → AllAccounted net digest parent
          (send_children net digest parent links sys).system
          links
          (send_children net digest parent links sys).answers
  send_children-AllAccounted links sys shallow =
      subst
        (λ (r : Sending).
          r.not_sent ≡ false
          → ¬ In (failed run_not_active) r.answers
          → AllAccounted net digest parent r.system links r.answers)
        (sym (send_children_loop links sys shallow))
        (λ ok active. elim (send_loop-Done links false sys shallow) [
          | inl (inl h) ↦ cc
          | inl (inr h) ↦ absurd (active h)
          | inr d ↦ d
        ])
