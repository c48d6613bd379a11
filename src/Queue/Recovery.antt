-- ===== src/Queue/Recovery.antt =====
-- `recover_stale_leases` (backend/yield_rca_api/store.py): which records it writes, and how.
use autonomous_qwen_react.Prelude.{
  String, Bool, true, false, ◌≡◌, refl, sym, ap, ◌∙◌, List, [], ◌∷◌, length, All, none, some, ok,
  get, put, str_eq, eq_iff, get-put, Dict, Distinct, All-of_get, any, get-put_self, some_inj, ℤ,
  arith, Bool-cases, inl, inr, if◌then◌else◌,
}
use autonomous_qwen_react.Queue.Records.{Time, QueueRecord, post_init, status_of}
use autonomous_qwen_react.Queue.Store.{Store, append_event, put_record, replace_attempt}
use autonomous_qwen_react.Queue.Workers.{settle}
use autonomous_qwen_react.Queue.Failures.{
  next_status, recovered, is_stale, recover_one, write_recovered, recover_all, stale_job_ids,
  recover_stale_leases,
}
use autonomous_qwen_react.Queue.Effects.Defs.{Effects, done, step}
use autonomous_qwen_react.Queue.Effects.{recover_one-Effect}
use autonomous_qwen_react.Queue.Built.{recovered-built}
use autonomous_qwen_react.Queue.Invariant.{Inv, Effect-Inv}

-- The record that a stale one becomes.
abbrev pub after_recovery : Time → ℤ → QueueRecord → QueueRecord
after_recovery now d r = recovered r (next_status (status_of r) true r) d now

-- One round of the loop returns, and writes one record.
recover_one-ok :
    (d : ℤ) (now : Time) (k : String) (r : QueueRecord) (s : Store)
    → post_init r ≡ ok tt
    → (s' : Store) × (recover_one d now k r s ≡ ok s')
      × (s'.records ≡ put k (after_recovery now d r) s.records)
unfolding recover_one settle append_event put_record replace_attempt
recover_one-ok d now k r s b = (
  write_recovered (next_status (status_of r) true r) now k (after_recovery now d r) s,
  rw (recovered-built r (next_status (status_of r) true r) d now b) refl,
  refl,
)

abbrev occurs : String → List String → Bool
occurs k ks = any (λ j. str_eq k j) ks

-- Different keys, each with a stale record.
abbrev AllStale : Time → Store → List String → Type 0
AllStale now s [] = Unit
AllStale now s (k ∷ ks) =
    ((r : QueueRecord) × (get k s.records ≡ some r) × (is_stale now r ≡ true))
    × (occurs k ks ≡ false)
    × AllStale now s ks

-- Writing another record does not matter.
AllStale-put :
    (now : Time) (s s' : Store) (k : String) (r : QueueRecord) (ks : List String)
    → s'.records ≡ put k r s.records
    → occurs k ks ≡ false
    → AllStale now s ks
    → AllStale now s' ks
AllStale-put now s s' k r [] e a h = tt
AllStale-put now s s' k r (j ∷ ks) e a ((v, f, m), b, h) = (
  (v, ap (get j) e ∙ get-put k j r s.records ∙ rw (apart.0) f, m),
  b,
  AllStale-put now s s' k r ks e apart.1 h,
)
  where
    apart : (str_eq k j ≡ false) × (occurs k ks ≡ false)
    apart = ground arith

-- What the loop over `ks` does to the record of the job `j`.
abbrev Outcome : ℤ → Time → List String → Store → Store → Type 0
Outcome d now ks s s' =
    (j : String) (r : QueueRecord)
    → get j s.records ≡ some r
    → get j s'.records ≡ some (if occurs j ks then after_recovery now d r else r)

Outcome-cons :
    (d : ℤ) (now : Time) (k : String) (ks : List String) (r : QueueRecord) (s s1 s2 : Store)
    → get k s.records ≡ some r
    → s1.records ≡ put k (after_recovery now d r) s.records
    → occurs k ks ≡ false
    → Outcome d now ks s1 s2
    → Outcome d now (k ∷ ks) s s2
Outcome-cons d now k ks r s s1 s2 f p b q j v g = elim (Bool-cases (str_eq j k)) [
  | inl e ↦
      let j≡k : j ≡ k = (eq_iff j k).0 e in
      let same : r ≡ v = some_inj (sym f ∙ ap (λ i. get i s.records) (sym j≡k) ∙ g) in
      let written : get k s1.records ≡ some (after_recovery now d r) =
        ap (get k) p ∙ get-put_self k (after_recovery now d r) s.records in
      rw e (
        ap (λ i. get i s2.records) j≡k
        ∙ q k (after_recovery now d r) written
        ∙ rw b (ap (λ y. some (after_recovery now d y)) same))
  | inr e ↦ rw e (
      q j v (
        ap (get j) p
        ∙ get-put k j (after_recovery now d r) s.records
        ∙ ground (arith, eq_iff k j, eq_iff j k, e, g)))
]

-- The loop returns, keeps the invariant, and changes the records of the keys alone.
recover_all-ok :
    (d : ℤ) (now : Time) (ks : List String) (s : Store)
    → Inv s
    → AllStale now s ks
    → (s' : Store) × (recover_all d now ks s ≡ ok s')
      × Inv s'
      × Outcome d now ks s s'
      × Effects s' s
unfolding recover_all
recover_all-ok d now [] s h a = (s, refl, h, (λ j r f. f), done refl)
recover_all-ok d now (k ∷ ks) s h ((r, f, m), b, a) =
    let (s1, e1, p1) = recover_one-ok d now k r s ((h.stored k r f).2) in
    let x1 = recover_one-Effect d now k r s f m e1 in
    let h1 = Effect-Inv h x1 in
    let (s2, e2, h2, q2, x2) =
      recover_all-ok d now ks s1 h1 (AllStale-put now s s1 k _ ks p1 b a) in
    (
      s2,
      rw (f, recover_all) (rw e1 e2),
      h2,
      Outcome-cons d now k ks r s s1 s2 f p1 b q2,
      step s1 x1 x2,
    )

occurs-stale_none :
    (now : Time) (k : String) (d : Dict QueueRecord)
    → get k d ≡ none
    → occurs k (stale_job_ids now d) ≡ false
unfolding get stale_job_ids
occurs-stale_none now k [] e = refl
occurs-stale_none now k ((j, r) ∷ d) e =
    ground (arith, eq_iff j k, eq_iff k j, occurs-stale_none now k d)

-- The identifiers that are picked are those of the stale records.
occurs-stale_job_ids :
    (now : Time) (k : String) (r : QueueRecord) (d : Dict QueueRecord)
    → Distinct d
    → get k d ≡ some r
    → occurs k (stale_job_ids now d) ≡ is_stale now r
unfolding get stale_job_ids
occurs-stale_job_ids now k r [] h e = cc
occurs-stale_job_ids now k r ((j, v) ∷ d) h e = ground (
  arith,
  eq_iff j k,
  eq_iff k j,
  occurs-stale_none now k d,
  occurs-stale_job_ids now k r d h.1,
  h.0,
)

stale_job_ids-AllStale :
    (now : Time) (s : Store) (d : Dict QueueRecord)
    → Distinct d
    → All (λ (e : String × QueueRecord). get e.0 s.records ≡ some e.1) d
    → AllStale now s (stale_job_ids now d)
unfolding stale_job_ids
stale_job_ids-AllStale now s [] h a = tt
stale_job_ids-AllStale now s ((k, r) ∷ d) h a = elim (Bool-cases (is_stale now r)) [
  | inl e ↦
      rw e ((r, a.0, e), occurs-stale_none now k d h.0, stale_job_ids-AllStale now s d h.1 a.1)
  | inr e ↦ rw e (stale_job_ids-AllStale now s d h.1 a.1)
]

-- On a store of the invariant the recovery returns with the number of the stale records, keeps the
-- invariant, and writes exactly the records that are stale: each of them as `after_recovery` says,
-- every other as it was. It does so by a chain of writes, each of one stored job or of none.
pub recover_stale_leases-ok :
    (s : Store) (now : Time) (d : ℤ)
    → Inv s
    → (s' : Store) × (recover_stale_leases s now d ≡ ok (s', length (stale_job_ids now s.records)))
      × Inv s'
      × ((j : String) (r : QueueRecord)
          → get j s.records ≡ some r
          → get j s'.records ≡ some (if is_stale now r then after_recovery now d r else r))
      × Effects s' s
unfolding recover_stale_leases
recover_stale_leases-ok s now d h =
    let ids = stale_job_ids now s.records in
    let found = All-of_get (λ j r. get j s.records ≡ some r) s.records h.distinct (λ j r e. e) in
    let (s', e, h', q, x) =
      recover_all-ok d now ids s h (stale_job_ids-AllStale now s s.records h.distinct found) in
    (
      s',
      rw e,
      h',
      (λ j r f.
          q j r f
          ∙ ap (λ b. some (if b then after_recovery now d r else r))
              (occurs-stale_job_ids now j r s.records h.distinct f)),
      x,
    )
