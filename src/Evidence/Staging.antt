-- ===== src/Evidence/Staging.antt =====
-- `merge` and `require` of core/yield_rca_core/evidence_collection.py: what they return, and when
-- they raise.
use mathlib.Core.List.{append-nil, append_assoc}
use mathlib.Core.Path.{subst}
use autonomous_qwen_react.Prelude.{
  String, Bool, true, false, not, ◌≡◌, ◌≢◌, ◌↔◌, ◌⊎◌, inl, inr, refl, sym, ap, ◌∙◌, List, [], ◌∷◌,
  ◌++◌, map, filter, any, All, str_eq, eq_iff, eq_refl, Dict, get, put, values, All-of_get,
  Distinct, none, some, some_inj, Result, ok, raise, arith, Bool-cases, Option-cases,
}
use autonomous_qwen_react.Evidence.Collection.{
  Evidence, EvidenceError, unknown_evidence_ids, add, add_all, merge, require, is_found, lookup_all,
}
use autonomous_qwen_react.Evidence.Merge.{IsIndex, Extends, add_all-Extends, add_all-same}

All-middle {ℓ κ} :
    {A : Type ℓ} (Q : A → Type κ) (xs : List A) (y : A) (ys : List A) → All Q (xs ++ y ∷ ys) → Q y
All-middle Q [] y ys h = h.0
All-middle Q (x ∷ xs) y ys h = All-middle Q xs y ys h.1

filter-none {ℓ} :
    {A : Type ℓ} (test : A → Bool) (xs : List A) → any test xs ≡ false → filter test xs ≡ []
filter-none test [] h = refl
filter-none test (x ∷ xs) h = ground (arith, filter-none test xs)

filter-some {ℓ} :
    {A : Type ℓ} (test : A → Bool) (xs : List A)
    → any test xs ≡ true
    → (y : A) × (ys : List A) × (filter test xs ≡ y ∷ ys)
filter-some test [] h = cc
filter-some test (x ∷ xs) h = elim (Bool-cases (test x)) [
  | inl e ↦ rw e (x, filter test xs, refl)
  | inr e ↦ rw e (filter-some test xs (rw e at h))
]

module _ {P : Type 0} (same : P → P → Bool)
    (same_iff : (a b : P) → (same a b ≡ true) ↔ (a ≡ b)) where
  put-new :
      (d : Dict (Evidence P)) (k : String) (e : Evidence P)
      → get k d ≡ none
      → put k e d ≡ d ++ (k, e) ∷ []
  unfolding put get
  put-new [] k e n = refl
  put-new ((j, x) ∷ d) k e n = elim (Bool-cases (str_eq j k)) [
    | inl b ↦ absurd (ground (arith, b, n))
    | inr b ↦ rw b (ap (λ t. (j, x) ∷ t) (put-new d k e (rw b at n)))
  ]

  add-new :
      (d : Dict (Evidence P)) (e : Evidence P)
      → get e.evidence_id d ≡ none
      → add same d e ≡ ok (d ++ (e.evidence_id, e) ∷ [])
  unfolding add
  add-new d e n = rw (n, add) (ap ok (put-new d e.evidence_id e n))

  get-append_present :
      (d r : Dict (Evidence P)) (k : String) (e : Evidence P) → get k (d ++ (k, e) ∷ r) ≡ none → ⊥
  unfolding get
  get-append_present [] r k e q = ground (arith, eq_refl k, q)
  get-append_present ((j, x) ∷ d) r k e q = ground (arith, get-append_present d r k e, q)

  get-append_absent :
      (d r : Dict (Evidence P)) (k : String) (e : Evidence P)
      → Distinct (d ++ (k, e) ∷ r)
      → get k d ≡ none
  unfolding get
  get-append_absent [] r k e h = refl
  get-append_absent ((j, x) ∷ d) r k e h = elim (Bool-cases (str_eq j k)) [
    | inl b ↦ absurd (
        get-append_present d r k e
          (subst (λ i. get i (d ++ (k, e) ∷ r) ≡ none) ((eq_iff j k).0 b) h.0))
    | inr b ↦ rw b (get-append_absent d r k e h.1)
  ]

  -- The staged copy of `merge` is the index.
  add_all-values :
      (d r : Dict (Evidence P))
      → Distinct (d ++ r)
      → All (λ p. p.1.evidence_id ≡ p.0) r
      → add_all same d (values r) ≡ ok (d ++ r)
  unfolding add_all values
  add_all-values d [] h f = ap ok (sym (append-nil d))
  add_all-values d ((k, e) ∷ r) h f = rw added (
      subst (λ t. add_all same (d ++ (k, e) ∷ []) (values r) ≡ ok t)
        (append_assoc d ((k, e) ∷ []) r)
        (add_all-values (d ++ (k, e) ∷ []) r
          (subst Distinct (sym (append_assoc d ((k, e) ∷ []) r)) h) f.1))
    where
      added : add same d e ≡ ok (d ++ (k, e) ∷ [])
      added =
          subst (λ i. get i d ≡ none → add same d e ≡ ok (d ++ (i, e) ∷ [])) f.0 (add-new d e)
            (get-append_absent d r k e h)

  staged : (d : Dict (Evidence P)) → IsIndex d → add_all same [] (values d) ≡ ok d
  staged d h =
      add_all-values [] d h.distinct (All-of_get (λ k e. e.evidence_id ≡ k) d h.distinct h.filed)

  merge-add_all :
      (d : Dict (Evidence P)) (es : List (Evidence P))
      → IsIndex d
      → merge same d es ≡ add_all same d es
  unfolding merge
  merge-add_all d es h = rw (staged d h) refl

  -- A merge into an index that returns files every incoming item, keeps every item that was there,
  -- brings in nothing else, and leaves an index; merging the same items again changes nothing. The
  -- comparison of payloads is equality.
  pub merge-Extends :
      (d : Dict (Evidence P)) (es : List (Evidence P)) {d' : Dict (Evidence P)}
      → IsIndex d
      → merge same d es ≡ ok d'
      → Extends d es d' × (merge same d' es ≡ ok d')
  merge-Extends d es {d'} h q =
      let x = add_all-Extends same same_iff d es h (sym (merge-add_all d es h) ∙ q) in
      (x, merge-add_all d' es x.index ∙ add_all-same same same_iff d' es x.added)

  -- A merge into an index raises when an incoming item conflicts with one that is filed: the index
  -- has another item under its identifier. The comparison of payloads is equality.
  pub merge-conflict :
      (d : Dict (Evidence P)) (before after : List (Evidence P)) (e x : Evidence P)
      → IsIndex d
      → get e.evidence_id d ≡ some x
      → x ≢ e
      → (err : EvidenceError) × (merge same d (before ++ e ∷ after) ≡ raise err)
  merge-conflict d before after e x h f n = go (merge same d (before ++ e ∷ after)) refl
    where
      go :
          (m : Result EvidenceError (Dict (Evidence P)))
          → merge same d (before ++ e ∷ after) ≡ m
          → (err : EvidenceError) × (merge same d (before ++ e ∷ after) ≡ raise err)
      go (ok d') q =
          let (x', _) = merge-Extends d (before ++ e ∷ after) h q in
          absurd (
            n (
              some_inj (
                sym (x'.kept e.evidence_id x f)
                ∙ All-middle (λ i. get i.evidence_id d' ≡ some i) before e after x'.added)))
      go (Result.raise err) q = (err, q)

module _ {P : Type 0} where
  lookup_all-cons :
      (d : Dict (Evidence P)) (i : String) (ids : List String) (e : Evidence P)
      → get i d ≡ some e
      → lookup_all d (i ∷ ids) ≡ e ∷ lookup_all d ids
  lookup_all-cons d i ids e f = rw (f, lookup_all) refl

  lookup_all-found :
      (d : Dict (Evidence P)) (ids : List String)
      → IsIndex d
      → any (λ i. not (is_found (get i d))) ids ≡ false
      → (map (λ e. e.evidence_id) (lookup_all d ids) ≡ ids)
        × All (λ e. get e.evidence_id d ≡ some e) (lookup_all d ids)
  lookup_all-found d [] h q = (refl, tt)
  lookup_all-found d (i ∷ ids) h q = elim (Option-cases (get i d)) [
    | inl n ↦ absurd (ground (arith, n, q))
    | inr (e, f) ↦
        let (a, b) = lookup_all-found d ids h (ground (arith, q)) in
        let named = h.filed i e f in
        subst
          (λ es.
            (map (λ x. x.evidence_id) es ≡ i ∷ ids) × All (λ x. get x.evidence_id d ≡ some x) es)
          (sym (lookup_all-cons d i ids e f))
          (ground (arith, named, a), (ap (λ j. get j d) named ∙ f, b))
  ]

  -- `require` returns the items of the identifiers, in their order, if all of them are filed, and
  -- otherwise raises.
  pub require-cases :
      (d : Dict (Evidence P)) (ids : List String)
      → IsIndex d
      → ((es : List (Evidence P)) × (require d ids ≡ ok es)
          × (map (λ e. e.evidence_id) es ≡ ids)
          × All (λ e. get e.evidence_id d ≡ some e) es)
        ⊎ ((err : EvidenceError) × (require d ids ≡ raise err)
            × (any (λ i. not (is_found (get i d))) ids ≡ true))
  unfolding require
  require-cases d ids h = elim (Bool-cases (any (λ i. not (is_found (get i d))) ids)) [
    | inl t ↦
        let (i, is, e) = filter-some (λ i. not (is_found (get i d))) ids t in
        inr (unknown_evidence_ids (i ∷ is), rw (e, require) refl, t)
    | inr t ↦
        let (a, b) = lookup_all-found d ids h t in
        inl (
          lookup_all d ids,
          rw (filter-none (λ i. not (is_found (get i d))) ids t, require) refl,
          a,
          b,
        )
  ]
