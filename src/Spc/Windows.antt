-- ===== src/Spc/Windows.antt =====
-- The windows of `add_windows` (core/yield_rca_core/spc_engine.py).
use mathlib.Core.Path.{subst}
use autonomous_qwen_react.Prelude.{
  ℕ, zero, suc, ◌≤◌, String, Bool, true, ◌||◌, List, [], ◌∷◌, ◌++◌, any, All, All-map, All-append,
  map, length, length-append, take, drop, leb, eq_refl, Option, none, some, ◌≡◌, refl, sym, ap, ◌∙◌,
  inl, inr, arith, Bool-cases,
}
use autonomous_qwen_react.Spc.Samples.{Floats, SpcSample, SpcRuleViolation, window_violation}
use autonomous_qwen_react.Spc.Rules.{Rule, judged, judge, add_windows, same_key}

module _ {ℓ} {A : Type ℓ} where
  take-drop : (n : ℕ) (xs : List A) → xs ≡ take n xs ++ drop n xs
  take-drop zero xs = refl
  take-drop (suc n) [] = refl
  take-drop (suc n) (x ∷ xs) = ap (λ ys. x ∷ ys) (take-drop n xs)

  length-take : (n : ℕ) (xs : List A) → n ≤ length xs → length (take n xs) ≡ n
  length-take zero xs h = refl
  length-take (suc n) [] h = absurd (omega (arith, h))
  length-take (suc n) (x ∷ xs) h = omega (arith, length-take n xs (omega (arith, h)))

  take-append : (n : ℕ) (w ys : List A) → length w ≡ n → take n (w ++ ys) ≡ w
  take-append zero [] ys h = refl
  take-append zero (x ∷ w) ys h = absurd (omega (arith, h))
  take-append (suc n) [] ys h = absurd (omega (arith, h))
  take-append (suc n) (x ∷ w) ys h = ap (λ zs. x ∷ zs) (take-append n w ys (omega (arith, h)))

  pub any-append : (p : A → Bool) (xs ys : List A) → any p (xs ++ ys) ≡ (any p xs || any p ys)
  any-append p [] ys = refl
  any-append p (x ∷ xs) ys = ground (arith, any-append p xs ys)

pub same_key_refl : (v : SpcRuleViolation) → same_key v v ≡ true
same_key_refl v = ground (arith, eq_refl v.rule_code, eq_refl v.end_timestamp)

module _ {F : Type 0} (f : Floats F) (name : String) (z : SpcSample F → F) where
  -- The violation is that of a segment of the samples, of the rule's size, which the rule flags.
  pub record Flags (r : Rule f) (xs : List (SpcSample F)) (v : SpcRuleViolation) : Type 0 where
    pub before : List (SpcSample F)
    pub first : SpcSample F
    pub rest : List (SpcSample F)
    pub behind : List (SpcSample F)
    pub direction : String
    pub segment : xs ≡ before ++ (first ∷ rest) ++ behind
    pub sized : length (first ∷ rest) ≡ r.size
    pub flagged : r.predicate (map z (first ∷ rest)) ≡ some direction
    pub made : v ≡ window_violation r.number r.description direction first rest name

  judge-Flags :
      (r : Rule f) (w behind : List (SpcSample F))
      → length w ≡ r.size
      → All (Flags r (w ++ behind)) (judge f r name z w)
  judge-Flags r [] behind h = tt
  judge-Flags r (x ∷ xs) behind h = go (r.predicate (map z (x ∷ xs))) refl
    where
      go :
          (o : Option String)
          → r.predicate (map z (x ∷ xs)) ≡ o
          → All (Flags r ((x ∷ xs) ++ behind)) (judged f r name x xs o)
      go none e = tt
      go (some d) e = (
        record {
          before = [];
          first = x;
          rest = xs;
          behind = behind;
          direction = d;
          segment = refl;
          sized = h;
          flagged = e;
          made = refl;
        },
        tt,
      )

  now :
      (r : Rule f) (xs : List (SpcSample F))
      → r.size ≤ length xs
      → All (Flags r xs) (judge f r name z (take r.size xs))
  now r xs h =
      subst (λ ys. All (Flags r ys) (judge f r name z (take r.size xs))) (sym (take-drop r.size xs))
        (judge-Flags r (take r.size xs) (drop r.size xs) (length-take r.size xs h))

  at_hand :
      (r : Rule f) (x : SpcSample F) (xs behind : List (SpcSample F))
      → length (x ∷ xs) ≡ r.size
      → leb r.size (length ((x ∷ xs) ++ behind)) ≡ true
  at_hand r x xs behind h = ground (arith, length-append xs behind, h)

  Flags-later :
      (r : Rule f) (x : SpcSample F) (xs : List (SpcSample F)) (v : SpcRuleViolation)
      → Flags r xs v
      → Flags r (x ∷ xs) v
  Flags-later r x xs v h = record {
    before = x ∷ h.before;
    first = h.first;
    rest = h.rest;
    behind = h.behind;
    direction = h.direction;
    segment = ap (λ ys. x ∷ ys) h.segment;
    sized = h.sized;
    flagged = h.flagged;
    made = h.made;
  }

  pub add_windows-Flags :
      (r : Rule f) (xs : List (SpcSample F)) → All (Flags r xs) (add_windows f r name z xs)
  unfolding add_windows
  add_windows-Flags r [] = tt
  add_windows-Flags r (x ∷ xs) =
      let later =
        All-map (add_windows f r name z xs) (Flags-later r x xs) (add_windows-Flags r xs) in
      elim (Bool-cases (leb r.size (length (x ∷ xs)))) [
        | inl e ↦ rw e (
            All-append (Flags r (x ∷ xs)) (judge f r name z (take r.size (x ∷ xs)))
              (add_windows f r name z xs) (now r (x ∷ xs) (ground (arith, e))) later)
        | inr e ↦ rw e later
      ]

  -- A segment that the rule flags has its violation.
  pub add_windows_complete :
      (r : Rule f) (before : List (SpcSample F)) (x : SpcSample F) (xs behind : List (SpcSample F))
      (d : String)
      → length (x ∷ xs) ≡ r.size
      → r.predicate (map z (x ∷ xs)) ≡ some d
      → any
          (same_key (window_violation r.number r.description d x xs name))
          (add_windows f r name z (before ++ (x ∷ xs) ++ behind))
        ≡ true
  unfolding add_windows
  add_windows_complete r [] x xs behind d h e = rw (at_hand r x xs behind h) (
      any-append (same_key (window_violation r.number r.description d x xs name))
        (judge f r name z (take r.size ((x ∷ xs) ++ behind)))
        (add_windows f r name z (xs ++ behind))
      ∙ rw (take-append r.size (x ∷ xs) behind h, e)
          (ground (arith, same_key_refl (window_violation r.number r.description d x xs name))))
  add_windows_complete r (y ∷ before) x xs behind d h e =
      elim (Bool-cases (leb r.size (length (y ∷ before ++ (x ∷ xs) ++ behind)))) [
        | inl l ↦ rw l (
            any-append (same_key (window_violation r.number r.description d x xs name))
              (judge f r name z (take r.size (y ∷ before ++ (x ∷ xs) ++ behind)))
              (add_windows f r name z (before ++ (x ∷ xs) ++ behind))
            ∙ ground (arith, add_windows_complete r before x xs behind d h e))
        | inr l ↦ rw l (add_windows_complete r before x xs behind d h e)
      ]
