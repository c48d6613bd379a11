-- ===== src/Queue/Idempotency.antt =====
-- The idempotency key of `enqueue` (backend/yield_rca_api/store.py).
use mathlib.Core.Path.{subst}
use autonomous_qwen_react.Prelude.{
  String, ◌≡◌, refl, sym, ap, ◌∙◌, Option, none, some, ok, raise, get, str_eq, eq_iff, get-put,
  get-put_self, some_inj, arith, Bool-cases, inl, inr, Option-cases, if◌then◌else◌, ok-injective,
}
use autonomous_qwen_react.Queue.Status.{idempotency_conflict}
use autonomous_qwen_react.Queue.Records.{Time, QueueRecord}
use autonomous_qwen_react.Queue.Store.{Store, append_event, put_record}
use autonomous_qwen_react.Queue.Clients.{
  enqueue, enqueue_new, enqueue_again, index_key, bound_job, get_record,
}
use autonomous_qwen_react.Queue.Moves.{
  Move, claim, beat, finish, discard, fail, recover, cancel, ask_cancel, IsNew,
}
use autonomous_qwen_react.Queue.Effects.Defs.{Effect, idle, added, moved, Effects, done, step}
use autonomous_qwen_react.Queue.Invariant.{Inv, Effect-Inv}
use autonomous_qwen_react.Queue.Effects.{enqueue-Effect}
use autonomous_qwen_react.Queue.Recovery.{recover_stale_leases-ok}
use autonomous_qwen_react.Queue.Runs.{Reach, here, called, recovered, call-Effect}
use autonomous_qwen_react.Queue.Lifecycle.{Reach-Inv}

-- The key is bound to the job `j`, which is stored with the request hash.
pub data IsBound (s : Store) (key j hash : String) : Type 0 where
  bound :
      (r : QueueRecord)
      → get key s.idempotency_index ≡ some j
      → get j s.records ≡ some r
      → r.request_hash ≡ hash
      → IsBound s key j hash

Move-request_hash : {r r' : QueueRecord} → Move r r' → r'.request_hash ≡ r.request_hash
Move-request_hash (claim w l t c e) = ground arith
Move-request_hash (beat w l t c e) = ground arith
Move-request_hash (finish w st c t o u j e) = ground arith
Move-request_hash (discard w c t o u e) = ground arith
Move-request_hash (fail w b st x c d t o j e) = ground arith
Move-request_hash (recover d t c e) = ground arith
Move-request_hash (cancel t c e) = ground arith
Move-request_hash (ask_cancel t c e) = ground arith

-- A new key is another key.
index_key-get :
    (s : Store) (o : Option String) (i key j : String)
    → bound_job s o ≡ none
    → get key s.idempotency_index ≡ some j
    → get key (index_key o i s).idempotency_index ≡ some j
index_key-get s none i key j b g = g
index_key-get s (some k) i key j b g =
    get-put k key i s.idempotency_index ∙ ground (arith, eq_iff k key, b, g)

Effect-IsBound :
    (s s' : Store) (key j hash : String)
    → Effect s s'
    → IsBound s key j hash
    → IsBound s' key j hash
Effect-IsBound s s' key j hash (idle e _ i _) (bound r g f h) =
    bound r (ap (get key) i ∙ g) (ap (get j) e ∙ f) h
Effect-IsBound s s' key j hash (added v new b n e _ i _) (bound r g f h) =
    bound r (ap (get key) i ∙ index_key-get s v.idempotency_key v.state.job.job_id key j b g)
      (ap (get j) e
        ∙ get-put v.state.job.job_id j v s.records
        ∙ ground (arith, eq_iff v.state.job.job_id j, n, f))
      h
Effect-IsBound s s' key j hash (moved k v v' q m _ e _ i _) (bound r g f h) =
    elim (Bool-cases (str_eq k j)) [
      | inl b ↦
          let v≡r : v ≡ r = some_inj (sym q ∙ ap (λ x. get x s.records) ((eq_iff k j).0 b) ∙ f) in
          bound v' (ap (get key) i ∙ g) (ap (get j) e ∙ get-put k j v' s.records ∙ rw b refl)
            (Move-request_hash m ∙ ap (λ (x : QueueRecord). x.request_hash) v≡r ∙ h)
      | inr b ↦ bound r (ap (get key) i ∙ g) (ap (get j) e ∙ get-put k j v' s.records ∙ rw b f) h
    ]

Effects-IsBound :
    (u s : Store) (key j hash : String) → Effects u s → IsBound s key j hash → IsBound u key j hash
Effects-IsBound u s key j hash (done e) b = subst (λ x. IsBound x key j hash) e b
Effects-IsBound u s key j hash (step t x xs) b =
    Effects-IsBound u t key j hash xs (Effect-IsBound s t key j hash x b)

Reach-IsBound :
    (s t : Store) (key j hash : String)
    → Inv s
    → Reach s t
    → IsBound s key j hash
    → IsBound t key j hash
Reach-IsBound s t key j hash i here b = b
Reach-IsBound s t key j hash i (called {t = u} c q a e) b =
    Effect-IsBound u t key j hash (call-Effect u c (Reach-Inv i q) a e)
      (Reach-IsBound s u key j hash i q b)
Reach-IsBound s t key j hash i (recovered {t = u} now d {n} q e) b =
    let (v, e', h', _, xs) = recover_stale_leases-ok u now d (Reach-Inv i q) in
    let v≡t : v ≡ t = ground (arith, e, e') in
    subst (λ x. IsBound x key j hash) v≡t
      (Effects-IsBound v u key j hash xs (Reach-IsBound s u key j hash i q b))

new-IsBound :
    (s : Store) (r : QueueRecord) (t : Time) {s' : Store} {x : QueueRecord} (key : String)
    → r.idempotency_key ≡ some key
    → enqueue_new s r t ≡ ok (s', x)
    → IsBound s' key x.state.job.job_id r.request_hash
unfolding enqueue_new append_event put_record
new-IsBound s r t key k e = elim (Option-cases (get r.state.job.job_id s.records)) [
  | inl n ↦
      let q = ok-injective (rw (n, enqueue_new) at e) in
      subst (λ (y : Store × QueueRecord). IsBound y.0 key y.1.state.job.job_id r.request_hash) q
        (bound r (simp k (get-put_self key r.state.job.job_id s.idempotency_index))
          (simp k (get-put_self r.state.job.job_id r s.records)) refl)
  | inr (v, n) ↦ absurd (cc (rw (n, enqueue_new) at e))
]

again-IsBound :
    (s : Store) (r : QueueRecord) (key j : String) {s' : Store} {x : QueueRecord}
    → Inv s
    → get key s.idempotency_index ≡ some j
    → enqueue_again s r j ≡ ok (s', x)
    → IsBound s' key x.state.job.job_id r.request_hash
unfolding enqueue_again
again-IsBound s r key j h b e = elim (Option-cases (get j s.records)) [
  | inl n ↦ absurd (cc (rw (n, enqueue_again) at e))
  | inr (v, n) ↦ elim (Bool-cases (str_eq v.request_hash r.request_hash)) [
    | inl m ↦
        let q = ok-injective (rw m at (rw (n, enqueue_again) at e)) in
        let same : j ≡ v.state.job.job_id = sym ((h.stored j v n).0) in
        subst (λ (y : Store × QueueRecord). IsBound y.0 key y.1.state.job.job_id r.request_hash) q
          (bound v (b ∙ ap some same) (ap (λ i. get i s.records) (sym same) ∙ n)
            ((eq_iff v.request_hash r.request_hash).0 m))
    | inr m ↦ absurd (cc (rw m at (rw (n, enqueue_again) at e)))
  ]
]

-- After an `enqueue` that returned, its key is bound to the record that it returned.
enqueue-IsBound :
    (s : Store) (r : QueueRecord) (t : Time) {s' : Store} {x : QueueRecord} (key : String)
    → Inv s
    → r.idempotency_key ≡ some key
    → enqueue s r t ≡ ok (s', x)
    → IsBound s' key x.state.job.job_id r.request_hash
unfolding enqueue
enqueue-IsBound s r t key h k e = elim (Option-cases (bound_job s r.idempotency_key)) [
  | inl n ↦ new-IsBound s r t key k (rw (n, enqueue) at e)
  | inr (j, n) ↦
      again-IsBound s r key j h (subst (λ o. bound_job s o ≡ some j) k n) (rw (n, enqueue) at e)
]

IsBound-enqueue :
    (u : Store) (r : QueueRecord) (t : Time) (key j hash : String)
    → IsBound u key j hash
    → r.idempotency_key ≡ some key
    → (y : QueueRecord) × (get_record u j ≡ some y)
      × (enqueue u r t
          ≡ (if str_eq hash r.request_hash then ok (u, y) else raise idempotency_conflict))
unfolding enqueue enqueue_again get_record
IsBound-enqueue u r t key j hash (bound y g f h) k = (y, f, ground (arith, g, f, h, k))

-- In a store of the invariant a new request is enqueued under a key and the call returns `x`.
-- Whatever happens then, another
-- `enqueue` under that key changes nothing: with the same request hash it returns the record that the
-- job of `x` has by then, and with another one it raises the conflict.
pub enqueue_idempotent :
    (s : Store) (r : QueueRecord) (t : Time) {s' : Store} {x : QueueRecord} (key : String)
    (u : Store) (r2 : QueueRecord) (t2 : Time)
    → Inv s
    → IsNew r
    → r.idempotency_key ≡ some key
    → enqueue s r t ≡ ok (s', x)
    → Reach s' u
    → r2.idempotency_key ≡ some key
    → (y : QueueRecord) × (get_record u x.state.job.job_id ≡ some y)
      × (enqueue u r2 t2 ≡ (
          if str_eq r.request_hash r2.request_hash then ok (u, y) else raise idempotency_conflict))
enqueue_idempotent s r t {s'} {x} key u r2 t2 h new k e q k2 =
    let h' = Effect-Inv h (enqueue-Effect s r t new e) in
    IsBound-enqueue u r2 t2 key x.state.job.job_id r.request_hash
      (Reach-IsBound s' u key x.state.job.job_id r.request_hash h' q
        (enqueue-IsBound s r t key h k e))
      k2
