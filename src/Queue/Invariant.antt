-- ===== src/Queue/Invariant.antt =====
-- What holds of the queue between two calls.
use mathlib.Core.Path.{subst, ap₂}
use autonomous_qwen_react.Prelude.{
  ℕ, suc, String, false, ◌+◌, ◌≡◌, refl, sym, ap, ◌∙◌, List, [], ◌∷◌, ◌++◌, map, length, up_to,
  none, ok, get, str_eq, eq_iff, eq_refl, get-put, Distinct, put-Distinct, Every, put-Every,
  some_inj, Dict, length-append, arith, Bool-cases, inl, inr,
}
use autonomous_qwen_react.Json.{Json}
use mathlib.Core.List.{map-append}
use native.Mathlib.Numerals.{add-one}
use autonomous_qwen_react.Queue.Records.{Time, QueueRecord, AttemptRecord, EventRecord, post_init}
use autonomous_qwen_react.Queue.Store.{Store, append_event, events_of, rows, next_event, empty}
use autonomous_qwen_react.Queue.Moves.{IsSound, Move-IsSound, IsNew-IsSound, Move-job_id}
use autonomous_qwen_react.Queue.Effects.Defs.{
  Effect, idle, added, moved, EventLog, quiet, logged, AttemptLog, kept, begun, numbers, sequences,
}

abbrev EventsCounted : String → Dict (List EventRecord) → Type 0
EventsCounted k d = map (λ e. e.sequence) (rows (get k d)) ≡ up_to (length (rows (get k d)))

-- Every record stands under its job's identifier, is sound, and passes its checks.
abbrev pub IsStored : String → QueueRecord → Type 0
IsStored j r = (r.state.job.job_id ≡ j) × IsSound r × (post_init r ≡ ok tt)

pub record Inv (s : Store) : Type 0 where
  pub distinct : Distinct s.records
  pub stored : Every IsStored s.records
  pub attempts_counted : Every (λ j r. numbers s j ≡ up_to r.attempt_count) s.records
  pub attempts_known : (j : String) → get j s.records ≡ none → numbers s j ≡ []
  pub events_counted : (j : String) → sequences s j ≡ up_to (length (events_of s j))

-- The identifiers and the checks.
records-Effect :
    {s s' : Store} → Inv s → Effect s s' → Distinct s'.records × Every IsStored s'.records
records-Effect h (idle e _ _ _) =
    (subst Distinct (sym e) h.distinct, subst (Every IsStored) (sym e) h.stored)
records-Effect {s} h (added r new _ n e _ _ _) =
    let j = r.state.job.job_id in
    (
      subst Distinct (sym e) (put-Distinct j r s.records h.distinct),
      subst (Every IsStored) (sym e)
          (put-Every IsStored j r s.records h.stored (refl, IsNew-IsSound new, new.built)),
    )
records-Effect {s} h (moved j r r' f m i e _ _ _) =
    let (same, sound, built) = h.stored j r f in
    (
      subst Distinct (sym e) (put-Distinct j r' s.records h.distinct),
      subst (Every IsStored) (sym e) (
          put-Every IsStored j r' s.records h.stored
            (Move-job_id m ∙ same, Move-IsSound sound m, i)),
    )

-- The numbers of the attempts depend on the attempts alone.
numbers_of_eq : (s s' : Store) (k : String) → s'.attempts ≡ s.attempts → numbers s' k ≡ numbers s k
numbers_of_eq s s' k e = ap (λ d. map (λ (a : AttemptRecord). a.attempt_number) (rows (get k d))) e

-- The attempts of the job that has moved.
AttemptLog-moved :
    (s s' : Store) (j : String) (n n' : ℕ)
    → AttemptLog s s' j n n'
    → numbers s j ≡ up_to n
    → numbers s' j ≡ up_to n'
AttemptLog-moved s s' j n n' (kept same e) h = same j ∙ h ∙ ap up_to (sym e)
AttemptLog-moved s s' j n n' (begun more e) h = more j ∙ rw (eq_refl j, h, e, add-one) refl

AttemptLog-other :
    (s s' : Store) (j k : String) (n n' : ℕ)
    → AttemptLog s s' j n n'
    → str_eq j k ≡ false
    → numbers s' k ≡ numbers s k
AttemptLog-other s s' j k n n' (kept same e) h = same k
AttemptLog-other s s' j k n n' (begun more e) h = more k ∙ rw h

attempts-Effect :
    {s s' : Store}
    → Inv s
    → Effect s s'
    → Every (λ j r. numbers s' j ≡ up_to r.attempt_count) s'.records
attempts-Effect {s} {s'} h (idle e a _ _) k v f =
    numbers_of_eq s s' k a ∙ h.attempts_counted k v (rw e at f)
attempts-Effect {s} {s'} h (added r new _ n e a _ _) k v f =
    elim (Bool-cases (str_eq r.state.job.job_id k)) [
      | inl m ↦
          numbers_of_eq s s' k a
          ∙ h.attempts_known k (rw (← (eq_iff r.state.job.job_id k).0 m) n)
          ∙ ap up_to (
              sym new.unattempted
              ∙ ap (λ (y : QueueRecord). y.attempt_count)
                  (some_inj (rw (e, get-put r.state.job.job_id k r s.records, m) at f)))
      | inr m ↦
          numbers_of_eq s s' k a
          ∙ h.attempts_counted k v (rw (e, get-put r.state.job.job_id k r s.records, m) at f)
    ]
attempts-Effect {s} {s'} h (moved j r r' found m i e a _ _) k v f = elim (Bool-cases (str_eq j k)) [
  | inl b ↦
      let j≡k = (eq_iff j k).0 b in
      subst (λ i. numbers s' i ≡ up_to v.attempt_count) j≡k
        (AttemptLog-moved s s' j r.attempt_count r'.attempt_count a (h.attempts_counted j r found)
          ∙ ap (λ (y : QueueRecord). up_to y.attempt_count)
              (some_inj (rw (e, get-put j k r' s.records, b) at f)))
  | inr b ↦
      AttemptLog-other s s' j k r.attempt_count r'.attempt_count a b
      ∙ h.attempts_counted k v (rw (e, get-put j k r' s.records, b) at f)
]

unknown-Effect :
    {s s' : Store}
    → Inv s
    → Effect s s'
    → (k : String) → get k s'.records ≡ none
    → numbers s' k ≡ []
unknown-Effect {s} {s'} h (idle e a _ _) k f =
    numbers_of_eq s s' k a ∙ h.attempts_known k (rw e at f)
unknown-Effect {s} {s'} h (added r new _ n e a _ _) k f =
    numbers_of_eq s s' k a
    ∙ h.attempts_known k (ground (arith, get-put r.state.job.job_id k r s.records, e, f))
unknown-Effect {s} {s'} h (moved j r r' found m i e a _ _) k f = elim (Bool-cases (str_eq j k)) [
  | inl b ↦ ground (arith, get-put j k r' s.records, e, f, b)
  | inr b ↦
      AttemptLog-other s s' j k r.attempt_count r'.attempt_count a b
      ∙ h.attempts_known k (rw (e, get-put j k r' s.records, b) at f)
]

counted-append :
    (es : List EventRecord) (e : EventRecord)
    → map (λ x. x.sequence) es ≡ up_to (length es)
    → e.sequence ≡ length es + 1
    → map (λ x. x.sequence) (es ++ e ∷ []) ≡ up_to (length (es ++ e ∷ []))
counted-append es e h n =
    map-append (λ (x : EventRecord). x.sequence) es (e ∷ [])
    ∙ ap₂ (λ ns k. ns ++ k ∷ []) h (n ∙ add-one _)
    ∙ ap up_to longer
  where
    longer : suc (length es) ≡ length (es ++ e ∷ [])
    longer = omega (arith, length-append es (e ∷ []))

append_event_counted :
    (s : Store) (j ty : String) (p : Json) (t : Time) (k : String)
    → sequences s k ≡ up_to (length (events_of s k))
    → sequences (append_event j ty p t s) k ≡ up_to (length (events_of (append_event j ty p t s) k))
unfolding append_event
append_event_counted s j ty p t k h = elim (Bool-cases (str_eq j k)) [
  | inl b ↦
      let j≡k = (eq_iff j k).0 b in
      rw (get-put j k (events_of s j ++ next_event s j ty p t ∷ []) s.events, b)
        (counted-append (events_of s j) (next_event s j ty p t) (rw j≡k h) refl)
  | inr b ↦ rw (get-put j k (events_of s j ++ next_event s j ty p t ∷ []) s.events, b) h
]

events-Effect :
    (s s' : Store) (k : String)
    → EventLog s s'
    → sequences s k ≡ up_to (length (events_of s k))
    → sequences s' k ≡ up_to (length (events_of s' k))
events-Effect s s' k (quiet e) h = subst (EventsCounted k) (sym e) h
events-Effect s s' k (logged j ty p t e) h =
    subst (EventsCounted k) (sym e) (append_event_counted s j ty p t k h)

log_of : {s s' : Store} → Effect s s' → EventLog s s'
log_of (idle _ _ _ l) = l
log_of (added _ _ _ _ _ _ _ l) = l
log_of (moved _ _ _ _ _ _ _ _ _ l) = l

-- Every effect keeps the invariant.
pub Effect-Inv : {s s' : Store} → Inv s → Effect s s' → Inv s'
Effect-Inv {s} {s'} h x = record {
  distinct = (records-Effect h x).0;
  stored = (records-Effect h x).1;
  attempts_counted = attempts-Effect h x;
  attempts_known = unknown-Effect h x;
  events_counted = λ k. events-Effect s s' k (log_of x) (h.events_counted k);
}

pub empty-Inv : Inv empty
unfolding get
empty-Inv = record {
  distinct = tt;
  stored = λ j r e. absurd (cc e);
  attempts_counted = λ j r e. absurd (cc e);
  attempts_known = λ j e. refl;
  events_counted = λ j. refl;
}
