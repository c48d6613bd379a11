-- ===== src/Evidence/Merge.antt =====
-- What adding items leaves in the index of core/yield_rca_core/evidence_collection.py.
use mathlib.Core.Path.{subst}
use autonomous_qwen_react.Prelude.{
  String, Bool, true, ◌≡◌, ◌↔◌, ◌⊎◌, inl, inr, refl, ap, ◌∙◌, List, [], ◌∷◌, any, All, str_eq,
  eq_iff, eq_refl, Dict, get, put, get-put, get-put_self, Every, put-Every, Distinct, put-Distinct,
  Option, none, some, ok, >>=-eq-ok, ok-injective, arith, Bool-cases, Option-cases,
}
use autonomous_qwen_react.Evidence.Collection.{
  EntityRef, Evidence, same_type, same_refs, same_evidence, add, add_all,
}

-- The index files every item under its identifier, once.
pub record IsIndex {P : Type 0} (d : Dict (Evidence P)) : Type 0 where
  pub distinct : Distinct d
  pub filed : Every (λ k e. e.evidence_id ≡ k) d

-- `d'` has the items of `d` and those of `es`, and no others.
pub record Extends {P : Type 0} (d : Dict (Evidence P)) (es : List (Evidence P))
    (d' : Dict (Evidence P)) : Type 0 where
  pub index : IsIndex d'
  pub kept : Every (λ k e. get k d' ≡ some e) d
  pub added : All (λ e. get e.evidence_id d' ≡ some e) es
  pub nothing_else :
      Every (λ k e. (get k d ≡ some e) ⊎ (any (λ x. str_eq x.evidence_id k) es ≡ true)) d'

module _ {P : Type 0} (same : P → P → Bool)
    (same_iff : (a b : P) → (same a b ≡ true) ↔ (a ≡ b)) where
  same_refs→eq : (as' bs : List EntityRef) → same_refs as' bs ≡ true → as' ≡ bs
  same_refs→eq [] [] h = refl
  same_refs→eq [] (b ∷ bs) h = cc
  same_refs→eq (a ∷ as') [] h = cc
  same_refs→eq (a ∷ as') (b ∷ bs) h = ground (
    arith,
    eq_iff a.entity_type b.entity_type,
    eq_iff a.entity_id b.entity_id,
    same_refs→eq as' bs,
  )

  same_type→eq : (a b : Option String) → same_type a b ≡ true → a ≡ b
  same_type→eq none none h = refl
  same_type→eq none (some b) h = cc
  same_type→eq (some a) none h = cc
  same_type→eq (some a) (some b) h = ap some ((eq_iff a b).0 h)

  pub same_evidence→eq : (a b : Evidence P) → same_evidence same a b ≡ true → a ≡ b
  unfolding same_evidence
  same_evidence→eq a b h = ground (
    arith,
    eq_iff a.evidence_id b.evidence_id,
    same_type→eq a.evidence_type b.evidence_type,
    same_refs→eq a.entities b.entities,
    same_iff a.payload b.payload,
  )

  same_refs_refl : (as' : List EntityRef) → same_refs as' as' ≡ true
  same_refs_refl [] = refl
  same_refs_refl (a ∷ as') =
      ground (arith, eq_refl a.entity_type, eq_refl a.entity_id, same_refs_refl as')

  same_type_refl : (a : Option String) → same_type a a ≡ true
  same_type_refl none = refl
  same_type_refl (some a) = eq_refl a

  pub same_evidence_refl : (a : Evidence P) → same_evidence same a a ≡ true
  unfolding same_evidence
  same_evidence_refl a = ground (
    arith,
    eq_refl a.evidence_id,
    same_type_refl a.evidence_type,
    same_refs_refl a.entities,
    (same_iff a.payload a.payload).1 refl,
  )

  new-Extends :
      (d : Dict (Evidence P)) (e : Evidence P)
      → IsIndex d
      → get e.evidence_id d ≡ none
      → Extends d (e ∷ []) (put e.evidence_id e d)
  new-Extends d e h n = record {
    index = record {
      distinct = put-Distinct e.evidence_id e d h.distinct;
      filed = put-Every (λ k x. x.evidence_id ≡ k) e.evidence_id e d h.filed refl;
    };
    kept = λ k x q. ground (arith, get-put e.evidence_id k e d, eq_iff e.evidence_id k, n, q);
    added = (get-put_self e.evidence_id e d, tt);
    nothing_else = λ k x q. elim (Bool-cases (str_eq e.evidence_id k)) [
      | inl b ↦ inr (rw b refl)
      | inr b ↦ inl (rw (get-put e.evidence_id k e d, b) at q)
    ];
  }

  old-Extends :
      (d : Dict (Evidence P)) (e : Evidence P)
      → IsIndex d
      → get e.evidence_id d ≡ some e
      → Extends d (e ∷ []) d
  old-Extends d e h f = record {
    index = h;
    kept = λ k x q. q;
    added = (f, tt);
    nothing_else = λ k x q. inl q;
  }

  -- An item that was added is filed, and what was there stays.
  add-Extends :
      (d : Dict (Evidence P)) (e : Evidence P) {d' : Dict (Evidence P)}
      → IsIndex d
      → add same d e ≡ ok d'
      → Extends d (e ∷ []) d'
  unfolding add
  add-Extends d e {d'} h q = elim (Option-cases (get e.evidence_id d)) [
    | inl n ↦ subst (Extends d (e ∷ [])) (ok-injective (rw (n, add) at q)) (new-Extends d e h n)
    | inr (x, f) ↦ elim (Bool-cases (same_evidence same x e)) [
      | inl s ↦
          subst (Extends d (e ∷ [])) (ok-injective (rw (f, s, add) at q))
            (old-Extends d e h (f ∙ ap some (same_evidence→eq x e s)))
      | inr s ↦ absurd (ground (arith, f, s, q))
    ]
  ]

  Extends-trans :
      (d d1 d2 : Dict (Evidence P)) (e : Evidence P) (es : List (Evidence P))
      → Extends d (e ∷ []) d1
      → Extends d1 es d2
      → Extends d (e ∷ es) d2
  Extends-trans d d1 d2 e es a b = record {
    index = b.index;
    kept = λ k x q. b.kept k x (a.kept k x q);
    added = (b.kept e.evidence_id e a.added.0, b.added);
    nothing_else = λ k x q. elim (b.nothing_else k x q) [
      | inl f ↦ elim (a.nothing_else k x f) [ inl g ↦ inl g | inr t ↦ inr (ground (arith, t)) ]
      | inr t ↦ inr (ground (arith, t))
    ];
  }

  pub add_all-Extends :
      (d : Dict (Evidence P)) (es : List (Evidence P)) {d' : Dict (Evidence P)}
      → IsIndex d
      → add_all same d es ≡ ok d'
      → Extends d es d'
  unfolding add_all
  add_all-Extends d [] h q =
      subst (Extends d []) (ok-injective q)
        (record { index = h; kept = λ k x q. q; added = tt; nothing_else = λ k x q. inl q })
  add_all-Extends d (e ∷ es) {d'} h q =
      let (d1, q1, q2) = >>=-eq-ok (add same d e) (λ n. add_all same n es) q in
      let first = add-Extends d e h q1 in
      Extends-trans d d1 d' e es first (add_all-Extends d1 es first.index q2)

  -- Adding what is filed already changes nothing.
  pub add_all-same :
      (d : Dict (Evidence P)) (es : List (Evidence P))
      → All (λ e. get e.evidence_id d ≡ some e) es
      → add_all same d es ≡ ok d
  unfolding add_all add
  add_all-same d [] h = refl
  add_all-same d (e ∷ es) h = rw (h.0, same_evidence_refl e, add) (add_all-same d es h.1)
