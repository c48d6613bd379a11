-- ===== src/Queue/Effects/Defs.antt =====
-- The effect of a method of the store, and what is seen of the attempts and the events.
use autonomous_qwen_react.Prelude.{
  ℕ, String, ◌+◌, ◌≡◌, refl, List, [], ◌∷◌, ◌++◌, map, none, some, ok, get, put, str_eq, arith,
  if◌then◌else◌, get-put, eq_iff,
}
use mathlib.Core.List.{map-append}
use autonomous_qwen_react.Json.{Json}
use autonomous_qwen_react.Queue.Records.{Time, QueueRecord, AttemptRecord, post_init}
use autonomous_qwen_react.Queue.Store.{
  Store, attempts_of, events_of, append_event, append_attempt, replace_attempt, update_attempt,
}
use autonomous_qwen_react.Queue.Clients.{index_key, bound_job}
use autonomous_qwen_react.Queue.Moves.{Move, IsNew}

-- The numbers of a job's attempts, and of its events.
abbrev pub numbers : Store → String → List ℕ
numbers s j = map (λ a. a.attempt_number) (attempts_of s j)

abbrev pub sequences : Store → String → List ℕ
sequences s j = map (λ e. e.sequence) (events_of s j)

pub data EventLog (s s' : Store) : Type 0 where
  quiet : s'.events ≡ s.events → EventLog s s'
  logged :
      (j event_type : String) (p : Json) (t : Time)
      → s'.events ≡ (append_event j event_type p t s).events
      → EventLog s s'

-- The attempts of the job `j`, whose record's count goes from `n` to `n'`.
pub data AttemptLog (s s' : Store) (j : String) (n n' : ℕ) : Type 0 where
  kept : ((k : String) → numbers s' k ≡ numbers s k) → n' ≡ n → AttemptLog s s' j n n'
  begun :
      ((k : String)
        → numbers s' k ≡ (if str_eq j k then numbers s k ++ (n + 1) ∷ [] else numbers s k))
      → n' ≡ n + 1
      → AttemptLog s s' j n n'

pub data Effect (s s' : Store) : Type 0 where
  idle :
      s'.records ≡ s.records
      → s'.attempts ≡ s.attempts
      → s'.idempotency_index ≡ s.idempotency_index
      → EventLog s s'
      → Effect s s'
  added :
      (r : QueueRecord)
      → IsNew r
      → bound_job s r.idempotency_key ≡ none
      → get r.state.job.job_id s.records ≡ none
      → s'.records ≡ put r.state.job.job_id r s.records
      → s'.attempts ≡ s.attempts
      → s'.idempotency_index ≡ (index_key r.idempotency_key r.state.job.job_id s).idempotency_index
      → EventLog s s'
      → Effect s s'
  moved :
      (j : String) (r r' : QueueRecord)
      → get j s.records ≡ some r
      → Move r r'
      → post_init r' ≡ ok tt
      → s'.records ≡ put j r' s.records
      → AttemptLog s s' j r.attempt_count r'.attempt_count
      → s'.idempotency_index ≡ s.idempotency_index
      → EventLog s s'
      → Effect s s'

-- Effects one after another.
pub data Effects : Store → Store → Type 0 where
  done : {u s : Store} → s ≡ u → Effects u s
  step : {u s : Store} (t : Store) → Effect s t → Effects u t → Effects u s

map-update_attempt :
    (n : ℕ) (f : AttemptRecord → AttemptRecord)
    → ((a : AttemptRecord) → (f a).attempt_number ≡ a.attempt_number)
    → (xs : List AttemptRecord)
    → map (λ a. a.attempt_number) (update_attempt n f xs) ≡ map (λ a. a.attempt_number) xs
unfolding update_attempt
map-update_attempt n f keep [] = refl
map-update_attempt n f keep (a ∷ xs) = ground (arith, keep a, map-update_attempt n f keep xs)

-- An update that keeps the number keeps the numbers of every job.
pub numbers-replace_attempt :
    (j : String) (n : ℕ) (f : AttemptRecord → AttemptRecord) (s : Store)
    → ((a : AttemptRecord) → (f a).attempt_number ≡ a.attempt_number)
    → (k : String) → numbers (replace_attempt j n f s) k ≡ numbers s k
unfolding replace_attempt
numbers-replace_attempt j n f s keep k = ground (
  arith,
  eq_iff j k,
  get-put j k (update_attempt n f (attempts_of s j)) s.attempts,
  map-update_attempt n f keep (attempts_of s k),
)

pub numbers-append_attempt :
    (j : String) (a : AttemptRecord) (s : Store) (k : String)
    → numbers (append_attempt j a s) k
      ≡ (if str_eq j k then numbers s k ++ a.attempt_number ∷ [] else numbers s k)
unfolding append_attempt
numbers-append_attempt j a s k = ground (
  arith,
  eq_iff j k,
  get-put j k (attempts_of s j ++ a ∷ []) s.attempts,
  map-append (λ (b : AttemptRecord). b.attempt_number) (attempts_of s k) (a ∷ []),
)
