-- ===== src/Queue/Offsets/Log.antt =====
-- The abstract view of internal/processor/queue/offsets.go: for each partition, every record that
-- was delivered since the partition was last released, with what has been acknowledged.
use project_arachne.Prelude.{
  ℕ, ◌≡◌, ◌≢◌, refl, sym, ◌⊎◌, inl, inr, List, [], ◌∷◌, ◌++◌, true, false, arith, nat_eq, All,
}
use project_arachne.Queue.Offsets.{Record, TrackedRecord, pending, mark}

-- What is left of a log when the finished records at its front are dropped.
unfoldable pub drop_done : List TrackedRecord → List TrackedRecord
drop_done [] = []
drop_done (x ∷ log) = elim x.is_done [ true ↦ drop_done log | false ↦ x ∷ log ]

-- The record and every record before it in the log are done.
abbrev pub Committable : Record → List TrackedRecord → Type 0
Committable r [] = ⊥
Committable r (x ∷ log) = (x.is_done ≡ true) × ((x.item ≡ r) ⊎ Committable r log)

-- No entry of the log holds the record with this address.
abbrev pub Lacks : ℕ → List TrackedRecord → Type 0
Lacks id = All (λ x. x.item.id ≢ id)

-- No record is in the log twice.
abbrev pub Distinct : List TrackedRecord → Type 0
Distinct [] = Unit {0}
Distinct (x ∷ log) = Lacks x.item.id log × Distinct log

pub mark_absent : (r : Record) (log : List TrackedRecord) → Lacks r.id log → mark r log ≡ log
unfolding mark
mark_absent r [] h = refl
mark_absent r (x ∷ log) h = ground (arith, mark_absent r log h.1)

pub mark-Lacks :
    (id : ℕ) (r : Record) (log : List TrackedRecord) → Lacks id log → Lacks id (mark r log)
unfolding mark
mark-Lacks id r [] h = tt
mark-Lacks id r (x ∷ log) h = ground (arith, mark-Lacks id r log h.1)

pub mark-Distinct : (r : Record) (log : List TrackedRecord) → Distinct log → Distinct (mark r log)
unfolding mark
mark-Distinct r [] h = tt
mark-Distinct r (x ∷ log) h =
    ground (arith, mark-Lacks x.item.id r log h.0, mark-Distinct r log h.1)

pub append-Lacks :
    (id : ℕ) (log : List TrackedRecord) (r : Record)
    → Lacks id log
    → r.id ≢ id
    → Lacks id (log ++ pending r ∷ [])
append-Lacks id [] r h ne = (ne, tt)
append-Lacks id (x ∷ log) r h ne = (h.0, append-Lacks id log r h.1 ne)

pub append-Distinct :
    (log : List TrackedRecord) (r : Record)
    → Distinct log
    → Lacks r.id log
    → Distinct (log ++ pending r ∷ [])
append-Distinct [] r d h = (tt, tt)
append-Distinct (x ∷ log) r d h =
    (append-Lacks x.item.id log r d.0 (λ e. h.0 (sym e)), append-Distinct log r d.1 h.1)

pub drop_done_twice : (log : List TrackedRecord) → drop_done (drop_done log) ≡ drop_done log
unfolding drop_done
drop_done_twice [] = refl
drop_done_twice (x ∷ log) = ground (arith, drop_done_twice log)

pub drop_done-Lacks : (id : ℕ) (log : List TrackedRecord) → Lacks id log → Lacks id (drop_done log)
unfolding drop_done
drop_done-Lacks id [] h = tt
drop_done-Lacks id (x ∷ log) h = ground (arith, drop_done-Lacks id log h.1)

-- A delivery goes behind what is still in flight.
pub drop_done-append :
    (log : List TrackedRecord) (r : Record)
    → drop_done (log ++ pending r ∷ []) ≡ drop_done log ++ pending r ∷ []
unfolding drop_done
drop_done-append [] r = refl
drop_done-append (x ∷ log) r = ground (arith, drop_done-append log r)

-- An acknowledgement finds the record in what is still in flight, if no record is there twice.
pub drop_done-mark :
    (r : Record) (log : List TrackedRecord)
    → Distinct log
    → drop_done (mark r (drop_done log)) ≡ drop_done (mark r log)
unfolding drop_done mark
drop_done-mark r [] d = refl
drop_done-mark r (x ∷ log) d = ground (
  arith,
  drop_done-mark r log d.1,
  drop_done_twice log,
  mark_absent r (drop_done log),
  drop_done-Lacks x.item.id log d.0,
)

pub Committable-append :
    (r s : Record) (log : List TrackedRecord)
    → Committable r log
    → Committable r (log ++ pending s ∷ [])
Committable-append r s [] c = absurd c
Committable-append r s (x ∷ log) (d, inl e) = (d, inl e)
Committable-append r s (x ∷ log) (d, inr c) = (d, inr (Committable-append r s log c))

pub Committable-mark :
    (r s : Record) (log : List TrackedRecord) → Committable r log → Committable r (mark s log)
unfolding mark
Committable-mark r s [] c = absurd c
Committable-mark r s (x ∷ log) c = ground (arith, Committable-mark r s log)

-- Nothing in flight is committable: its first record is not done.
not-Committable : (r : Record) (log : List TrackedRecord) → ¬ Committable r (drop_done log)
unfolding drop_done
not-Committable r [] c = c
not-Committable r (x ∷ log) c = ground (arith, not-Committable r log)

-- What becomes committable in the part in flight is so in the whole log.
pub Committable-drop_done :
    (r s : Record) (log : List TrackedRecord)
    → Distinct log
    → Committable r (mark s (drop_done log))
    → Committable r (mark s log)
unfolding drop_done mark
Committable-drop_done r s [] d c = absurd c
Committable-drop_done r s (x ∷ log) d c = ground (
  arith,
  Committable-drop_done r s log d.1,
  not-Committable r log,
  mark_absent s (drop_done log),
  drop_done-Lacks x.item.id log d.0,
)
