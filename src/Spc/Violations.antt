-- ===== src/Spc/Violations.antt =====
-- The violations that `evaluate_nelson_rules` (core/yield_rca_core/spc_engine.py) reports.
use autonomous_qwen_react.Prelude.{
  String, true, false, ◌||◌, List, [], ◌∷◌, ◌++◌, any, All, All-map, All-append, map, length,
  eq_iff, some, ok, ◌≡◌, refl, ap, ◌∙◌, ◌⊎◌, inl, inr, arith, Bool-cases,
}
use autonomous_qwen_react.Prelude.Sorting.{sorted}
use autonomous_qwen_react.Spc.Samples.{
  Floats, SpcSample, SpcRuleViolation, earlier, window_violation,
}
use autonomous_qwen_react.Spc.Rules.{
  Rule, nelson_rules, add_windows, add_all_windows, same_key, put_unique, unique, deviation,
  evaluate_nelson_rules,
}
use autonomous_qwen_react.Spc.Windows.{Flags, any-append, add_windows-Flags, add_windows_complete}

-- No two violations have one key.
abbrev pub IsUnique : List SpcRuleViolation → Type 0
IsUnique [] = Unit
IsUnique (v ∷ vs) = (any (same_key v) vs ≡ false) × IsUnique vs

same_key_trans : (u v w : SpcRuleViolation) → same_key u v ≡ true → same_key w v ≡ same_key w u
same_key_trans u v w h =
    ground (arith, eq_iff u.rule_code v.rule_code, eq_iff u.end_timestamp v.end_timestamp, h)

-- The keys after a violation is put in: its own, and those that were there.
keys-put_unique :
    (w v : SpcRuleViolation) (us : List SpcRuleViolation)
    → any (same_key w) (put_unique v us) ≡ (same_key w v || any (same_key w) us)
unfolding put_unique
keys-put_unique w v [] = refl
keys-put_unique w v (u ∷ us) = ground (arith, same_key_trans u v w, keys-put_unique w v us)

keys-unique :
    (w : SpcRuleViolation) (us vs : List SpcRuleViolation)
    → any (same_key w) (unique us vs) ≡ (any (same_key w) us || any (same_key w) vs)
unfolding unique
keys-unique w us [] = ground arith
keys-unique w us (v ∷ vs) =
    keys-unique w (put_unique v us) vs ∙ rw (keys-put_unique w v us) (ground arith)

put_unique-IsUnique :
    (v : SpcRuleViolation) (us : List SpcRuleViolation) → IsUnique us → IsUnique (put_unique v us)
unfolding put_unique
put_unique-IsUnique v [] h = (refl, tt)
put_unique-IsUnique v (u ∷ us) (n, h) = elim (Bool-cases (same_key u v)) [
  | inl e ↦ rw e (keys_alike u v us e ∙ n, h)
  | inr e ↦ rw e (keys-put_unique u v us ∙ ground (arith, e, n), put_unique-IsUnique v us h)
]
  where
    keys_alike :
        (a b : SpcRuleViolation) (ws : List SpcRuleViolation)
        → same_key a b ≡ true
        → any (same_key b) ws ≡ any (same_key a) ws
    keys_alike a b [] e = refl
    keys_alike a b (w ∷ ws) e = ground (
      arith,
      keys_alike a b ws e,
      eq_iff a.rule_code b.rule_code,
      eq_iff a.end_timestamp b.end_timestamp,
      e,
    )

unique-IsUnique : (us vs : List SpcRuleViolation) → IsUnique us → IsUnique (unique us vs)
unfolding unique
unique-IsUnique us [] h = h
unique-IsUnique us (v ∷ vs) h = unique-IsUnique (put_unique v us) vs (put_unique-IsUnique v us h)

module _ {κ} (P : SpcRuleViolation → Type κ) where
  put_unique-All :
      (v : SpcRuleViolation) (us : List SpcRuleViolation) → P v → All P us → All P (put_unique v us)
  unfolding put_unique
  put_unique-All v [] p h = (p, tt)
  put_unique-All v (u ∷ us) p (q, h) = elim (Bool-cases (same_key u v)) [
    | inl e ↦ rw e (p, h)
    | inr e ↦ rw e (q, put_unique-All v us p h)
  ]

  unique-All : (us vs : List SpcRuleViolation) → All P us → All P vs → All P (unique us vs)
  unfolding unique
  unique-All us [] h k = h
  unique-All us (v ∷ vs) h (p, k) = unique-All (put_unique v us) vs (put_unique-All v us p h) k

module _ {F : Type 0} (f : Floats F) (name : String) (z : SpcSample F → F) where
  -- One of the rules flags a segment of the samples, and the violation is that of the segment.
  abbrev pub FlagsOne : List (Rule f) → List (SpcSample F) → SpcRuleViolation → Type 0
  FlagsOne [] xs v = ⊥
  FlagsOne (r ∷ rs) xs v = Flags f name z r xs v ⊎ FlagsOne rs xs v

  -- Every segment of the samples that the rule flags has a violation with its key.
  abbrev pub Reports : List (SpcSample F) → List SpcRuleViolation → Rule f → Type 0
  Reports xs vs r =
      (before : List (SpcSample F)) (x : SpcSample F) (rest behind : List (SpcSample F))
      (d : String)
      → xs ≡ before ++ (x ∷ rest) ++ behind
      → length (x ∷ rest) ≡ r.size
      → r.predicate (map z (x ∷ rest)) ≡ some d
      → any (same_key (window_violation r.number r.description d x rest name)) vs ≡ true

  add_all_windows-FlagsOne :
      (rs : List (Rule f)) (xs : List (SpcSample F))
      → All (FlagsOne rs xs) (add_all_windows f rs name z xs)
  unfolding add_all_windows
  add_all_windows-FlagsOne [] xs = tt
  add_all_windows-FlagsOne (r ∷ rs) xs =
      All-append (FlagsOne (r ∷ rs) xs) (add_windows f r name z xs) (add_all_windows f rs name z xs)
        (All-map (add_windows f r name z xs) (λ v h. inl h) (add_windows-Flags f name z r xs))
        (All-map (add_all_windows f rs name z xs) (λ v h. inr h) (add_all_windows-FlagsOne rs xs))

  add_windows-Reports :
      (r : Rule f) (xs : List (SpcSample F)) → Reports xs (add_windows f r name z xs) r
  add_windows-Reports r xs before x rest behind d s h e =
      ap
        (λ ys.
          any (same_key (window_violation r.number r.description d x rest name))
            (add_windows f r name z ys))
        s
      ∙ add_windows_complete f name z r before x rest behind d h e

  add_all_windows-Reports :
      (rs : List (Rule f)) (xs : List (SpcSample F))
      → All (Reports xs (add_all_windows f rs name z xs)) rs
  unfolding add_all_windows
  add_all_windows-Reports [] xs = tt
  add_all_windows-Reports (r ∷ rs) xs = (
    λ before x rest behind d s h e.
        any-append _ (add_windows f r name z xs) (add_all_windows f rs name z xs)
        ∙ ground (arith, add_windows-Reports r xs before x rest behind d s h e),
    All-map rs
        (λ q k before x rest behind d s h e.
          any-append _ (add_windows f r name z xs) (add_all_windows f rs name z xs)
          ∙ ground (arith, k before x rest behind d s h e))
        (add_all_windows-Reports rs xs),
  )

-- With a positive sigma, the Nelson rules return. Each reported violation is that of a contiguous
-- window of the sorted samples, of a rule's size, in which the rule sees a direction; every such window
-- of every rule has a violation with its rule code and its last timestamp among them; and no
-- two violations share these two.
pub evaluate_nelson_rules-Reports :
    {F : Type 0} (f : Floats F) (samples : List (SpcSample F)) (center_line sigma : F)
    (name : String)
    → f.le sigma (f.whole 0) ≡ false
    → (vs : List SpcRuleViolation) × (evaluate_nelson_rules f samples center_line sigma name
        ≡ ok vs)
      × All
          (FlagsOne f name
            (deviation f center_line sigma)
            (nelson_rules f)
            (sorted earlier samples))
          vs
      × All
          (Reports f name (deviation f center_line sigma) (sorted earlier samples) vs)
          (nelson_rules f)
      × IsUnique vs
unfolding evaluate_nelson_rules
evaluate_nelson_rules-Reports f samples c s name p =
    let z = deviation f c s in
    let xs = sorted earlier samples in
    let all_found = add_all_windows f (nelson_rules f) name z xs in
    (
      unique [] all_found,
      rw p refl,
      unique-All (FlagsOne f name z (nelson_rules f) xs) [] all_found tt
          (add_all_windows-FlagsOne f name z (nelson_rules f) xs),
      All-map (nelson_rules f)
          (λ r k before x rest behind d e h q.
            keys-unique (window_violation r.number r.description d x rest name) [] all_found
            ∙ k before x rest behind d e h q)
          (add_all_windows-Reports f name z (nelson_rules f) xs),
      unique-IsUnique [] all_found tt,
    )
