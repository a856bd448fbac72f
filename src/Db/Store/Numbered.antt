-- ===== src/Db/Store/Numbered.antt =====
-- Every request is numbered once, in the order in which the requests came in.
use keystone_db.Prelude.{
  ℕ, ◌≡◌, refl, sym, ap, ◌∙◌, List, [], ◌∷◌, ◌++◌, append_assoc, append-nil, arith, some, inl, inr,
  length, drop, drop-length-append,
}
use keystone_db.Db.Store.{
  WriteRequest, Stage, idle, numbered, applied, settled, Store, assign, seq_after, enqueue, lead,
  apply_batch, installed, answer_batch, Event, request, leads, applies, checks, answers, flushes,
  step, arrivals, batch_of,
}
use keystone_db.Db.Store.Numbers.{assign-append, seq_after-append}
use keystone_db.Db.Store.Flushed.{Flushes, Checks, flush-some, check_flush-some}

-- The requests that came in are those with a number and those that wait; the queue has the batch
-- in work in front of those that wait.
pub record IsNumbered (first : ℕ) (arrived : List WriteRequest) (s : Store) : Type 0 where
  pub taken : List WriteRequest
  pub waiting : List WriteRequest
  pub split : arrived ≡ taken ++ waiting
  pub queue : s.write_queue ≡ batch_of s.stage ++ waiting
  pub numbers : s.answered ++ batch_of s.stage ≡ assign first taken
  pub next : s.next_seq ≡ seq_after first taken

module _ (first : ℕ) (arrived : List WriteRequest) where
  -- Only the numbers, the queue, the stage and the answers count.
  pub same-IsNumbered :
      (s s' : Store)
      → s'.write_queue ≡ s.write_queue
      → batch_of s'.stage ≡ batch_of s.stage
      → s'.answered ≡ s.answered
      → s'.next_seq ≡ s.next_seq
      → IsNumbered first arrived s
      → IsNumbered first arrived s'
  same-IsNumbered s s' q b a n h = record {
    taken = h.taken;
    waiting = h.waiting;
    split = h.split;
    queue = rw (q, b) h.queue;
    numbers = rw (a, b) h.numbers;
    next = n ∙ h.next;
  }

  Flushes-IsNumbered :
      (s s' : Store)
      → Flushes s s'
      → IsNumbered first arrived s
      → IsNumbered first arrived s' × (s'.stage ≡ s.stage)
  unfolding Flushes installed
  Flushes-IsNumbered s s' f h = elim f [
    | inl q ↦ (rw q h, ap (λ (t : Store). t.stage) q)
    | inr (table, q, _) ↦
        (rw q (same-IsNumbered s _ refl refl refl refl h), ap (λ (t : Store). t.stage) q)
  ]

  lead_by :
      (s : Store) (stage : Stage) (queue : List WriteRequest)
      → s.stage ≡ stage
      → s.write_queue ≡ queue
      → IsNumbered first arrived s
      → IsNumbered first arrived (lead s)
  unfolding lead
  lead_by s idle [] e q h = rw (lead, e, q) h
  lead_by s idle (r ∷ queue) e q h =
      let all : r ∷ queue ≡ h.waiting = sym q ∙ h.queue ∙ ap (λ t. batch_of t ++ h.waiting) e in
      let before : s.answered ≡ assign first h.taken =
        sym (append-nil s.answered) ∙ ap (λ t. s.answered ++ batch_of t) (sym e) ∙ h.numbers in
      rw (lead, e, q)
        (record {
          taken = h.taken ++ (r ∷ queue);
          waiting = [];
          split = h.split ∙ ap (λ t. h.taken ++ t) (sym all) ∙ sym (append-nil _);
          queue = sym (append-nil _);
          numbers =
              ap (λ t. t ++ assign s.next_seq (r ∷ queue)) before
              ∙ ap (λ n. assign first h.taken ++ assign n (r ∷ queue)) h.next
              ∙ sym (assign-append first h.taken (r ∷ queue));
          next =
              ap (λ n. seq_after n (r ∷ queue)) h.next
              ∙ sym (seq_after-append first h.taken (r ∷ queue));
        })
  lead_by s (numbered batch) queue e q h = rw (lead, e) h
  lead_by s (applied batch) queue e q h = rw (lead, e) h
  lead_by s (settled batch) queue e q h = rw (lead, e) h

  -- Applying the batch and checking for a flush change the stage, and no batch.
  restage :
      (s : Store) (stage : Stage)
      → batch_of stage ≡ batch_of s.stage
      → IsNumbered first arrived s
      → IsNumbered first arrived (record s { stage = stage })
  restage s stage b h = same-IsNumbered s (record s { stage = stage }) refl b refl refl h

  apply_by :
      (s : Store) (stage : Stage)
      → s.stage ≡ stage
      → IsNumbered first arrived s
      → IsNumbered first arrived (apply_batch s)
  unfolding apply_batch
  apply_by s idle e h = rw (apply_batch, e) h
  apply_by s (numbered batch) e h =
      rw (apply_batch, e) (same-IsNumbered s _ refl (ap batch_of (sym e)) refl refl h)
  apply_by s (applied batch) e h = rw (apply_batch, e) h
  apply_by s (settled batch) e h = rw (apply_batch, e) h

  Checks-IsNumbered :
      (s s' : Store) → Checks s s' → IsNumbered first arrived s → IsNumbered first arrived s'
  unfolding Checks
  Checks-IsNumbered s s' c h = elim c [
    | inl q ↦ rw q h
    | inr (batch, s₁, e, f, q) ↦
        let (h₁, k) = Flushes-IsNumbered s s₁ f h in
        rw q (restage s₁ (settled batch) (ap batch_of (sym (k ∙ e))) h₁)
  ]

  answer_by :
      (s : Store) (stage : Stage)
      → s.stage ≡ stage
      → IsNumbered first arrived s
      → IsNumbered first arrived (answer_batch s)
  unfolding answer_batch
  answer_by s idle e h = rw (answer_batch, e) h
  answer_by s (numbered batch) e h = rw (answer_batch, e) h
  answer_by s (applied batch) e h = rw (answer_batch, e) h
  answer_by s (settled batch) e h =
      let queue : s.write_queue ≡ batch ++ h.waiting =
        h.queue ∙ ap (λ t. batch_of t ++ h.waiting) e in
      rw (answer_batch, e)
        (record {
          taken = h.taken;
          waiting = h.waiting;
          split = h.split;
          queue =
              ap (drop (length batch)) queue
              ∙ drop-length-append batch h.waiting (length batch) refl;
          numbers = append-nil _ ∙ ap (λ t. s.answered ++ batch_of t) (sym e) ∙ h.numbers;
          next = h.next;
        })

  pub enqueue-IsNumbered :
      (r : WriteRequest) (s : Store)
      → IsNumbered first arrived s
      → IsNumbered first (arrived ++ (r ∷ [])) (enqueue r s)
  unfolding enqueue
  enqueue-IsNumbered r s h = record {
    taken = h.taken;
    waiting = h.waiting ++ (r ∷ []);
    split = ap (λ t. t ++ (r ∷ [])) h.split ∙ append_assoc h.taken h.waiting (r ∷ []);
    queue = ap (λ t. t ++ (r ∷ [])) h.queue ∙ append_assoc (batch_of s.stage) h.waiting (r ∷ []);
    numbers = h.numbers;
    next = h.next;
  }

-- Each event keeps it; a new request arrives last.
pub step-IsNumbered :
    (first : ℕ) (arrived : List WriteRequest) (event : Event) (s s' : Store)
    → step event s ≡ some s'
    → IsNumbered first arrived s
    → IsNumbered first (arrived ++ arrivals (event ∷ [])) s'
unfolding step arrivals
step-IsNumbered first arrived (request r) s s' e h =
    let q : s' ≡ enqueue r s = ground arith in rw q (enqueue-IsNumbered first arrived r s h)
step-IsNumbered first arrived leads s s' e h =
    let q : s' ≡ lead s = ground arith in
    rw (q, append-nil) (lead_by first arrived s s.stage s.write_queue refl refl h)
step-IsNumbered first arrived applies s s' e h =
    let q : s' ≡ apply_batch s = ground arith in
    rw (q, append-nil) (apply_by first arrived s s.stage refl h)
step-IsNumbered first arrived checks s s' e h =
    rw append-nil (Checks-IsNumbered first arrived s s' (check_flush-some s s' e) h)
step-IsNumbered first arrived answers s s' e h =
    let q : s' ≡ answer_batch s = ground arith in
    rw (q, append-nil) (answer_by first arrived s s.stage refl h)
step-IsNumbered first arrived flushes s s' e h =
    rw append-nil (Flushes-IsNumbered first arrived s s' (flush-some s s' e) h).0
