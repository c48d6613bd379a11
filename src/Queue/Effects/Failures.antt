-- ===== src/Queue/Effects/Failures.antt =====
-- The effects of `fail_attempt` and of each step of `recover_stale_leases`.
use mathlib.Core.Path.{subst}
use autonomous_qwen_react.Prelude.{
  String, Bool, true, ◌≡◌, refl, ap, Option, some, ok, get, ℤ, >>=-eq-ok, ok-injective,
}
use autonomous_qwen_react.Json.{Json}
use autonomous_qwen_react.Queue.Records.{Time, RcaState, QueueRecord, checked-bind, status_of}
use autonomous_qwen_react.Queue.Store.{Store}
use autonomous_qwen_react.Queue.Workers.{leased}
use autonomous_qwen_react.Queue.Failures.{
  next_status, failed_record, fail_attempt, recovered, recover_one, is_stale,
}
use autonomous_qwen_react.Queue.Moves.{SameJob, fail, recover}
use autonomous_qwen_react.Queue.Effects.Defs.{Effect}
use autonomous_qwen_react.Queue.Effects.Workers.{leased-eq-ok, settle-Effect}

pub fail_attempt-Effect :
    (s : Store) (w j : String) (x : Json) (b : Bool) (d : ℤ) (st : Option RcaState)
    (c : Option Json) (t : Time) {s' : Store} {y : QueueRecord}
    → ((r : QueueRecord) → get j s.records ≡ some r → SameJob st r)
    → fail_attempt s w j x b d st c t ≡ ok (s', y)
    → Effect s s'
unfolding fail_attempt
fail_attempt-Effect s w j x b d st c t same e =
    let (r, p, q) = >>=-eq-ok (leased s w j t) _ e in
    let (found, owned) = leased-eq-ok s w j t p in
    let (i, q') = checked-bind (failed_record r (next_status (status_of r) b r) st x c d t) _ q in
    subst (Effect s) (ap (λ (z : Store × QueueRecord). z.0) (ok-injective q')) (
      settle-Effect s j r _ _ _ _ t (λ _. refl) found
        (fail w b st x c d t owned (same r found) refl) i refl)

pub recover_one-Effect :
    (d : ℤ) (t : Time) (j : String) (r : QueueRecord) (s : Store) {s' : Store}
    → get j s.records ≡ some r
    → is_stale t r ≡ true
    → recover_one d t j r s ≡ ok s'
    → Effect s s'
unfolding recover_one
recover_one-Effect d t j r s found stale e =
    let (i, q) = checked-bind (recovered r (next_status (status_of r) true r) d t) _ e in
    subst (Effect s) (ok-injective q)
      (settle-Effect s j r _ _ _ _ t (λ _. refl) found (recover d t stale refl) i refl)
