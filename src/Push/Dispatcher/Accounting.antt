-- ===== src/Push/Dispatcher/Accounting.antt =====
-- Every delivery that is offered is either queued or has its one outcome recorded.
use tracker.Base.{
  ℕ, ◌+◌, ◌≤◌, ◌≡◌, refl, ap, String, Option, List, [], ◌∷◌, ltb, length, length-append, Bool-cases,
  inl, inr, arith, tests,
}
use tracker.Push.{Delivery, dropped}
use tracker.Push.Dispatcher.{
  Dispatcher, Sender, Event, offers, works, outcome_record, enqueue_one, enqueue, work, step, run,
}
use tracker.Push.Dispatcher.Outcomes.{one_more, deliver-Recorded}

-- `n` more deliveries are queued or recorded, and the queue stays within its capacity.
pub record Accounted (n : ℕ) (d d' : Dispatcher) : Type 0 where
  pub total : length d'.log + length d'.queue ≡ length d.log + length d.queue + n
  pub within : length d'.queue ≤ d'.capacity
  pub same_capacity : d'.capacity ≡ d.capacity
  pub same_attempts : d'.max_attempts ≡ d.max_attempts

pub offered : List Event → ℕ
offered [] = 0
offered (offers dels ∷ es) = length dels + offered es
offered (works ∷ es) = offered es

module _ (digest : String → String) where
  enqueue_one-Accounted :
      (d : Dispatcher) (del : Delivery)
      → length d.queue ≤ d.capacity
      → Accounted 1 d (enqueue_one digest d del)
  unfolding enqueue_one
  enqueue_one-Accounted d del h = elim (Bool-cases (ltb (length d.queue) d.capacity)) [
    | inl room ↦ rw room (record {
      total = omega (arith, length-append d.queue (del ∷ []));
      within = omega (tests, length-append d.queue (del ∷ []));
      same_capacity = refl;
      same_attempts = refl;
    })
    | inr full ↦ rw full (record {
      total = omega (
        arith,
        one_more d.log (outcome_record digest del dropped "queue full (pending cap reached)"),
      );
      within = h;
      same_capacity = refl;
      same_attempts = refl;
    })
  ]

  enqueue-Accounted :
      (d : Dispatcher) (dels : List Delivery)
      → length d.queue ≤ d.capacity
      → Accounted (length dels) d (enqueue digest d dels)
  unfolding enqueue
  enqueue-Accounted d [] h = omega arith
  enqueue-Accounted d (del ∷ rest) h =
      let a = enqueue_one-Accounted d del h in
      let b = enqueue-Accounted (enqueue_one digest d del) rest a.within in omega arith

  module _ (senders : String → Option Sender) where
    work-Accounted :
        (d : Dispatcher)
        → 1 ≤ d.max_attempts
        → length d.queue ≤ d.capacity
        → Accounted 0 d (work digest senders d)
    unfolding work
    work-Accounted d pos h = go d.queue refl
      where
        go : (q : List Delivery) → d.queue ≡ q → Accounted 0 d (work digest senders d)
        go [] e = rw (e, work) (omega (arith, ap length e))
        go (del ∷ rest) e =
            let r = deliver-Recorded digest senders (record d { queue = rest }) del pos in
            rw (e, work) (ground (arith, r, e))

    step-Accounted :
        (d : Dispatcher) (e : Event)
        → 1 ≤ d.max_attempts
        → length d.queue ≤ d.capacity
        → Accounted (offered (e ∷ [])) d (step digest senders d e)
    unfolding step offered
    step-Accounted d (offers dels) pos h = let a = enqueue-Accounted d dels h in omega arith
    step-Accounted d works pos h = work-Accounted d pos h

    -- For a dispatcher that makes at least one attempt and whose queue is within its capacity,
    -- however offers and worker rounds interleave, the outcomes recorded and the deliveries still
    -- queued number together what they were plus the deliveries offered, the queue never passes
    -- its capacity, and capacity and attempts do not change.
    pub run-Accounted :
        (d : Dispatcher) (es : List Event)
        → 1 ≤ d.max_attempts
        → length d.queue ≤ d.capacity
        → Accounted (offered es) d (run digest senders d es)
    unfolding run offered
    run-Accounted d [] pos h = omega arith
    run-Accounted d (e ∷ es) pos h =
        let a = step-Accounted d e pos h in
        let b = run-Accounted (step digest senders d e) es (omega arith) a.within in ground (arith)
