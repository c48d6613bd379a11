-- ===== src/Queue/Lifecycle.antt =====
-- The life of a job over any run of the queue (backend/yield_rca_api/store.py).
use mathlib.Core.Path.{subst}
use autonomous_qwen_react.Prelude.{
  ℕ, String, Bool, true, ◌≤◌, ◌≡◌, refl, sym, ap, ◌∙◌, ◌⊎◌, [], ◌∷◌, map, up_to, some, ok, get,
  arith, Bool-cases, inl, inr, str_eq, eq_iff, get-put, some_inj, ℤ,
}
use autonomous_qwen_react.Queue.Status.{
  TaskStatus, is_one_of, validate_job_transition, same, terminal_job_statuses, cancel_requested,
  cancelled,
}
use autonomous_qwen_react.Queue.Records.{Time, QueueRecord, status_of}
use autonomous_qwen_react.Queue.Store.{Store, empty}
use autonomous_qwen_react.Queue.Failures.{recover_stale_leases, is_stale}
use autonomous_qwen_react.Queue.Clients.{list_attempts, get_record}
use autonomous_qwen_react.Queue.Moves.{recover, Move-allowed}
use autonomous_qwen_react.Queue.Effects.Defs.{Effect, idle, added, moved}
use autonomous_qwen_react.Queue.Invariant.{Inv, Effect-Inv, empty-Inv}
use autonomous_qwen_react.Queue.Recovery.{after_recovery, recover_stale_leases-ok}
use autonomous_qwen_react.Queue.Runs.{
  Call, call, Admissible, call-Effect, Reach, here, called, recovered,
}

-- The job is still there, in a status that the table allows after the old one.
pub data Follows (j : String) (r : QueueRecord) (s' : Store) : Type 0 where
  follows :
      (r' : QueueRecord)
      → get j s'.records ≡ some r'
      → validate_job_transition (status_of r) (status_of r') ≡ ok tt
      → Follows j r s'

stays : (c : TaskStatus) → validate_job_transition c c ≡ ok tt
unfolding validate_job_transition
stays c = ground arith

Effect-Follows :
    (s s' : Store) (j : String) (r : QueueRecord)
    → Inv s
    → Effect s s'
    → get j s.records ≡ some r
    → Follows j r s'
Effect-Follows s s' j r h (idle e _ _ _) f = follows r (ap (get j) e ∙ f) (stays (status_of r))
Effect-Follows s s' j r h (added v new _ n e _ _ _) f =
    follows r
      (ap (get j) e
        ∙ get-put v.state.job.job_id j v s.records
        ∙ ground (arith, eq_iff v.state.job.job_id j, n, f))
      (stays (status_of r))
Effect-Follows s s' j r h (moved k v v' g m i e _ _ _) f = elim (Bool-cases (str_eq k j)) [
  | inl b ↦
      let v≡r : v ≡ r = some_inj (sym g ∙ ap (λ x. get x s.records) ((eq_iff k j).0 b) ∙ f) in
      follows v' (ap (get j) e ∙ get-put k j v' s.records ∙ rw b refl) (
        subst (λ x. validate_job_transition (status_of x) (status_of v') ≡ ok tt) v≡r
          (Move-allowed ((h.stored k v g).1) m))
  | inr b ↦ follows r (ap (get j) e ∙ get-put k j v' s.records ∙ rw b f) (stays (status_of r))
]

-- In a store of the invariant, an admissible call that returns leaves every job in place, in its
-- status or one step on in the transition table.
pub call-Follows :
    (s : Store) (c : Call) {s' : Store} (j : String) (r : QueueRecord)
    → Inv s
    → Admissible s c
    → call s c ≡ ok s'
    → get j s.records ≡ some r
    → Follows j r s'
call-Follows s c {s'} j r h a e f = Effect-Follows s s' j r h (call-Effect s c h a e) f

recovery-Follows :
    (s s' : Store) (now : Time) (d : ℤ) (n : ℕ) (j : String) (r : QueueRecord)
    → Inv s
    → recover_stale_leases s now d ≡ ok (s', n)
    → get j s.records ≡ some r
    → Inv s' × Follows j r s'
recovery-Follows s s' now d n j r h e f =
    let (u, e', h', q, _) = recover_stale_leases-ok s now d h in
    let u≡s' : u ≡ s' = ground (arith, e, e') in
    subst (λ x. Inv x × Follows j r x) u≡s'
      (
        h',
        elim (Bool-cases (is_stale now r)) [
          | inl b ↦
              follows (after_recovery now d r) (q j r f ∙ rw b refl)
                (Move-allowed ((h.stored j r f).1) (recover d now b refl))
          | inr b ↦ follows r (q j r f ∙ rw b refl) (stays (status_of r))
        ],
      )

-- The invariant holds after every run.
pub Reach-Inv : {s t : Store} → Inv s → Reach s t → Inv t
Reach-Inv h here = h
Reach-Inv h (called {t = t} c p a e) =
    Effect-Inv (Reach-Inv h p) (call-Effect t c (Reach-Inv h p) a e)
Reach-Inv h (recovered {t = t} {u = u} now d p e) =
    let (v, e', h', _, _) = recover_stale_leases-ok t now d (Reach-Inv h p) in
    subst Inv (ground (arith, e, e')) h'

stored_by-Follows :
    (j : String) (r : QueueRecord) (s' : Store)
    → Follows j r s'
    → (v : QueueRecord) × (get j s'.records ≡ some v)
stored_by-Follows j r s' (follows v e _) = (v, e)

-- A stored job stays stored.
pub Reach-stored :
    {s t : Store} (j : String) (r : QueueRecord)
    → Inv s
    → Reach s t
    → get j s.records ≡ some r
    → (v : QueueRecord) × (get j t.records ≡ some v)
Reach-stored j r h here f = (r, f)
Reach-stored j r h (called {t = t} {u = u} c p a e) f =
    let (v, g) = Reach-stored j r h p f in
    stored_by-Follows j v u (call-Follows t c j v (Reach-Inv h p) a e g)
Reach-stored j r h (recovered {t = t} {u = u} now d {n} p e) f =
    let (v, g) = Reach-stored j r h p f in
    stored_by-Follows j v u (recovery-Follows t u now d n j v (Reach-Inv h p) e g).1

-- A status set that no step of the table leaves.
abbrev Closed : (TaskStatus → Bool) → Type 0
Closed p = (c d : TaskStatus) → validate_job_transition c d ≡ ok tt → p c ≡ true → p d ≡ true

Follows-Closed :
    (p : TaskStatus → Bool) (j : String) (r : QueueRecord) (s' : Store)
    → Closed p
    → Follows j r s'
    → p (status_of r) ≡ true
    → (r' : QueueRecord) × (get j s'.records ≡ some r') × (p (status_of r') ≡ true)
Follows-Closed p j r s' k (follows r' f v) e = (r', f, k (status_of r) (status_of r') v e)

Reach-Closed :
    (p : TaskStatus → Bool) (s t : Store) (j : String) (r : QueueRecord)
    → Closed p
    → Inv s
    → Reach s t
    → get j s.records ≡ some r
    → p (status_of r) ≡ true
    → (r' : QueueRecord) × (get j t.records ≡ some r') × (p (status_of r') ≡ true)
Reach-Closed p s t j r k h here f e = (r, f, e)
Reach-Closed p s t j r k h (called {t = u} c q a x) f e =
    let (v, g, pv) = Reach-Closed p s u j r k h q f e in
    Follows-Closed p j v t k (call-Follows u c j v (Reach-Inv h q) a x g) pv
Reach-Closed p s t j r k h (recovered {t = u} now d {n} q x) f e =
    let (v, g, pv) = Reach-Closed p s u j r k h q f e in
    Follows-Closed p j v t k (recovery-Follows u t now d n j v (Reach-Inv h q) x g).1 pv

same-Closed : (c : TaskStatus) → is_one_of c terminal_job_statuses ≡ true → Closed (same c)
unfolding validate_job_transition
same-Closed c e a b v m = ground arith

same→eq : (c d : TaskStatus) → same c d ≡ true → d ≡ c
same→eq c d e = ground arith

-- From a store of the invariant, after any calls and recoveries, a job that was completed, failed or cancelled is still stored,
-- with the same status.
pub Reach-terminal :
    (s t : Store) (j : String) (r : QueueRecord)
    → Inv s
    → Reach s t
    → get j s.records ≡ some r
    → is_one_of (status_of r) terminal_job_statuses ≡ true
    → (r' : QueueRecord) × (get j t.records ≡ some r') × (status_of r' ≡ status_of r)
Reach-terminal s t j r h q f e =
    let (r', g, m) =
      Reach-Closed (same (status_of r)) s t j r (same-Closed (status_of r) e) h q f
        (ground (arith, same_refl (status_of r))) in
    (r', g, same→eq (status_of r) (status_of r') m)
  where
    same_refl : (c : TaskStatus) → same c c ≡ true
    same_refl c = ground arith

abbrev is_cancelling : TaskStatus → Bool
is_cancelling c = is_one_of c (cancel_requested ∷ cancelled ∷ [])

cancelling-Closed : Closed is_cancelling
unfolding validate_job_transition
cancelling-Closed c d v e = ground arith

-- From a store of the invariant, after any calls and recoveries, a job whose cancellation was requested is still stored, and is
-- waiting for it or cancelled: it never completes, fails or runs again.
pub Reach-cancelling :
    (s t : Store) (j : String) (r : QueueRecord)
    → Inv s
    → Reach s t
    → get j s.records ≡ some r
    → status_of r ≡ cancel_requested
    → (r' : QueueRecord) × (get j t.records ≡ some r')
      × ((status_of r' ≡ cancel_requested) ⊎ (status_of r' ≡ cancelled))
Reach-cancelling s t j r h q f e =
    let (r', g, m) = Reach-Closed is_cancelling s t j r cancelling-Closed h q f (rw e refl) in
    (r', g, ground arith)

-- In every store that a run makes from the empty one, the attempts of a stored job are numbered
-- 1, 2, ..., up to the attempt count of its record, which is at most its `max_attempts`.
pub attempts_bounded :
    (t : Store) (j : String) (r : QueueRecord)
    → Reach empty t
    → get_record t j ≡ some r
    → (map (λ a. a.attempt_number) (list_attempts t j) ≡ up_to r.attempt_count)
      × (r.attempt_count ≤ r.max_attempts)
unfolding get_record list_attempts
attempts_bounded t j r q f =
    let h = Reach-Inv empty-Inv q in (h.attempts_counted j r f, ((h.stored j r f).1).bounded)
