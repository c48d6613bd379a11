-- ===== src/Queue/Claims.antt =====
-- `claim_next` (backend/yield_rca_api/store.py): when it finds a job, and which one.
use mathlib.Core.Path.{subst}
use autonomous_qwen_react.Prelude.{
  String, true, false, ◌≡◌, ◌⊎◌, refl, sym, ◌∙◌, List, [], ◌∷◌, All, filter, none, some, ok, get,
  values, str_eq, get-put, get-put_self, some_inj, ℤ, at_most_zero, arith, Bool-cases, inl, inr,
  Dict, codes, codes_lt_asym, codes_lt_trans,
}
use autonomous_qwen_react.Prelude.Sorting.{sorted, sorted-All, sorted-eq-nil, sorted-Least}
use autonomous_qwen_react.Queue.Records.{Time, QueueRecord}
use autonomous_qwen_react.Queue.Store.{Store, append_event, append_attempt, put_record}
use autonomous_qwen_react.Queue.Workers.{
  is_candidate, claimed_before, claimed, start, claim_first, claim_next,
}
use autonomous_qwen_react.Queue.Clients.{get_record}
use autonomous_qwen_react.Queue.Built.{claimed-built}
use autonomous_qwen_react.Queue.Effects.{values-get}
use autonomous_qwen_react.Queue.Invariant.{Inv}

claimed_before_asym : (a b : QueueRecord) → claimed_before a b ≡ true → claimed_before b a ≡ false
unfolding claimed_before
claimed_before_asym a b h =
    ground (arith, codes_lt_asym (codes a.state.job.created_at) (codes b.state.job.created_at))

claimed_before_trans :
    (a b c : QueueRecord)
    → claimed_before a b ≡ false
    → claimed_before b c ≡ false
    → claimed_before a c ≡ false
unfolding claimed_before
claimed_before_trans a b c h k = ground (
  arith,
  codes_lt_trans (codes a.state.job.created_at) (codes b.state.job.created_at)
      (codes c.state.job.created_at),
)

-- What the list of candidates says of each stored record.
candidates-All :
    (P : QueueRecord → Type 0) (t : Time) (rs : List QueueRecord)
    → All P (filter (is_candidate t) rs)
    → All (λ r. is_candidate t r ≡ true → P r) rs
candidates-All P t [] h = tt
candidates-All P t (r ∷ rs) h = elim (Bool-cases (is_candidate t r)) [
  | inl e ↦ let (p, ps) = rw (e, filter) at h in (λ _. p, candidates-All P t rs ps)
  | inr e ↦ (λ c. cc, candidates-All P t rs (rw (e, filter) at h))
]

All-get :
    (P : QueueRecord → Type 0) (d : Dict QueueRecord)
    → All P (values d)
    → (j : String) (r : QueueRecord) → get j d ≡ some r
    → P r
unfolding get values
All-get P [] h j r e = cc
All-get P ((k, v) ∷ d) h j r e = elim (Bool-cases (str_eq k j)) [
  | inl b ↦ subst P (some_inj (rw (b, get) at e)) h.0
  | inr b ↦ All-get P d h.1 j r (rw (b, get) at e)
]

candidates-stored :
    (s : Store) (t : Time) (rs : List QueueRecord)
    → All (λ r. get r.state.job.job_id s.records ≡ some r) rs
    → All
        (λ r. (get r.state.job.job_id s.records ≡ some r) × (is_candidate t r ≡ true))
        (filter (is_candidate t) rs)
candidates-stored s t [] h = tt
candidates-stored s t (r ∷ rs) h = elim (Bool-cases (is_candidate t r)) [
  | inl e ↦ rw (e, filter) ((h.0, e), candidates-stored s t rs h.1)
  | inr e ↦ rw (e, filter) (candidates-stored s t rs h.1)
]

-- No stored record is due.
abbrev pub NoneDue : Store → Time → Type 0
NoneDue s t = (j : String) (r : QueueRecord) → get_record s j ≡ some r → is_candidate t r ≡ false

-- The record `r` is stored and due, and no stored record that is due goes before it.
abbrev pub IsFirst : Store → Time → QueueRecord → Type 0
IsFirst s t r =
    (get_record s r.state.job.job_id ≡ some r)
    × (is_candidate t r ≡ true)
    × ((j : String) (v : QueueRecord)
        → get_record s j ≡ some v
        → is_candidate t v ≡ true
        → claimed_before v r ≡ false)

-- The claim of the record `r` by the worker `w`; every other record stays.
abbrev pub Claims : Store → String → ℤ → Time → QueueRecord → Type 0
Claims s w l t r =
    (s' : Store) × (claim_next s w l t ≡ ok (s', some (claimed r w l t)))
    × (get_record s' r.state.job.job_id ≡ some (claimed r w l t))
    × ((j : String) → str_eq r.state.job.job_id j ≡ false → get_record s' j ≡ get_record s j)

module _ (s : Store) (w : String) (l : ℤ) (t : Time) (h : Inv s) (p : at_most_zero l ≡ false) where
  candidates : List QueueRecord
  candidates = filter (is_candidate t) (values s.records)

  stored_candidates :
      All (λ r. (get r.state.job.job_id s.records ≡ some r) × (is_candidate t r ≡ true)) candidates
  unfolding candidates
  stored_candidates =
      candidates-stored s t (values s.records)
        (values-get s h.distinct (λ j r f. (h.stored j r f).0))

  -- What holds of all candidates holds of every stored record that is due.
  each_candidate :
      (P : QueueRecord → Type 0)
      → All P candidates
      → (j : String) (r : QueueRecord) → get j s.records ≡ some r
      → is_candidate t r ≡ true
      → P r
  unfolding candidates
  each_candidate P a j r f =
      All-get (λ v. is_candidate t v ≡ true → P v) s.records
        (candidates-All P t (values s.records) a) j r f

  claim_none :
      sorted claimed_before candidates ≡ [] → (claim_next s w l t ≡ ok (s, none)) × NoneDue s t
  unfolding claim_next candidates claim_first get_record
  claim_none e = (
    rw (p, e) refl,
    λ j r f. elim (Bool-cases (is_candidate t r)) [
      | inl c ↦ absurd (
          each_candidate (λ _. ⊥)
            (subst (All (λ _. ⊥)) (sym (sorted-eq-nil claimed_before candidates e)) tt) j r f c)
      | inr c ↦ c
    ],
  )

  claim_some :
      (r : QueueRecord) (rs : List QueueRecord)
      → sorted claimed_before candidates ≡ r ∷ rs
      → IsFirst s t r × Claims s w l t r
  unfolding claim_next candidates claim_first get_record start append_event append_attempt
      put_record
  claim_some r rs e =
      let found = rw e at (sorted-All claimed_before _ candidates stored_candidates) in
      let least =
        sorted-Least claimed_before claimed_before_asym claimed_before_trans candidates e in
      let built = claimed-built r w l t ((h.stored r.state.job.job_id r found.0.0).2) in
      (
        (found.0.0, found.0.1, each_candidate (λ v. claimed_before v r ≡ false) least),
        (
          start w t (claimed r w l t) s,
          rw (p, e) (rw built refl),
          get-put_self r.state.job.job_id (claimed r w l t) s.records,
          λ j n. get-put r.state.job.job_id j (claimed r w l t) s.records ∙ rw n refl,
        ),
      )

  -- In a store of the invariant, with a positive lease, `claim_next` returns. Either no stored job is
  -- due and the store stays as it is, or the worker gets the first of the jobs that are due (by
  -- descending priority, then by creation time), its record is stored as running, and every other
  -- record stays.
  pub claim_next-IsFirst :
      ((claim_next s w l t ≡ ok (s, none)) × NoneDue s t)
      ⊎ ((r : QueueRecord) × (IsFirst s t r × Claims s w l t r))
  claim_next-IsFirst = go (sorted claimed_before candidates) refl
    where
      go :
          (rs : List QueueRecord)
          → sorted claimed_before candidates ≡ rs
          → ((claim_next s w l t ≡ ok (s, none)) × NoneDue s t)
            ⊎ ((r : QueueRecord) × (IsFirst s t r × Claims s w l t r))
      go [] e = inl (claim_none e)
      go (r ∷ rs) e = inr (r, claim_some r rs e)
