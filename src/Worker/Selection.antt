-- ===== src/Worker/Selection.antt =====
-- Which orchestration mode `_select_orchestration_mode` (backend/yield_rca_api/worker.py) selects.
use mathlib.Core.Path.{subst}
use autonomous_qwen_react.Prelude.{
  String, Bool, true, false, not, ◌||◌, str_eq, eq_iff, Option, none, ◌≡◌, ◌≢◌, ◌↔◌, refl, sym,
  arith,
}
use autonomous_qwen_react.Worker.Modes.{
  has_no_lot, names_defect, selected, select_orchestration_mode,
}

-- What the controlled mode needs.
abbrev pub IsControlled : String → String → Option String → String → Type 0
IsControlled mode investigation_mode lot_id user_query =
    (mode ≡ "controlled_react")
    × (investigation_mode ≡ "lot")
    × (has_no_lot lot_id ≡ false)
    × (names_defect user_query ≡ true)

selected-controlled :
    (a b c d : Bool)
    → (selected a b c d).0 ≡ "controlled_react"
    → (b ≡ true) × (c ≡ false) × (d ≡ true)
selected-controlled true b c d h =
    absurd (ground (arith, (eq_iff "llm_react" "controlled_react").1 h))
selected-controlled false false c d h =
    absurd (ground (arith, (eq_iff "fixed" "controlled_react").1 h))
selected-controlled false true true d h =
    absurd (ground (arith, (eq_iff "fixed" "controlled_react").1 h))
selected-controlled false true false false h =
    absurd (ground (arith, (eq_iff "fixed" "controlled_react").1 h))
selected-controlled false true false true h = (refl, refl, refl)

-- A reason is given in the two branches of a fallback.
selected-reason :
    (a b c d : Bool)
    → (selected a b c d).1 ≢ none
    → (b ≡ true) × ((selected a b c d).0 ≢ "controlled_react")
selected-reason true b c d h = absurd (h refl)
selected-reason false false c d h = absurd (h refl)
selected-reason false true true d h =
    (refl, λ e. ground (arith, (eq_iff "fixed" "controlled_react").1 e))
selected-reason false true false false h =
    (refl, λ e. ground (arith, (eq_iff "fixed" "controlled_react").1 e))
selected-reason false true false true h = absurd (h refl)

reason-selected :
    (c d : Bool)
    → (selected false true c d).0 ≢ "controlled_react"
    → (selected false true c d).1 ≢ none
reason-selected true d h e = ground (arith, e)
reason-selected false false h e = ground (arith, e)
reason-selected false true h e = h refl

select-IsControlled :
    (m i : String) (l : Option String) (q : String)
    → (select_orchestration_mode m i l q).0 ≡ "controlled_react"
    → IsControlled m i l q
unfolding select_orchestration_mode
select-IsControlled m i l q h =
    let (b, c, d) =
      selected-controlled (str_eq m "llm_react") (str_eq m "controlled_react")
        (not (str_eq i "lot") || has_no_lot l) (names_defect q) h in
    let lot : str_eq i "lot" ≡ true = ground (arith, c) in
    ((eq_iff m "controlled_react").0 b, (eq_iff i "lot").0 lot, ground (arith, c), d)

IsControlled-select :
    (m i : String) (l : Option String) (q : String)
    → IsControlled m i l q
    → (select_orchestration_mode m i l q).0 ≡ "controlled_react"
unfolding select_orchestration_mode
IsControlled-select m i l q (a, b, c, d) = rw (a, b, c, d) refl

fallback-select :
    (m i : String) (l : Option String) (q : String)
    → m ≡ "controlled_react"
    → (select_orchestration_mode m i l q).0 ≢ "controlled_react"
    → (select_orchestration_mode m i l q).1 ≢ none
unfolding select_orchestration_mode
fallback-select m i l q e =
    subst
      (λ x.
        (select_orchestration_mode x i l q).0 ≢ "controlled_react"
        → (select_orchestration_mode x i l q).1 ≢ none)
      (sym e) (reason-selected (not (str_eq i "lot") || has_no_lot l) (names_defect q))

-- The controlled mode is selected exactly where the workflow asks for it, for the investigation of a lot,
-- with a lot, and a query that names a defect; a fallback is reported exactly where the workflow
-- asks for the controlled mode and does not get it.
pub select_orchestration_mode_iff :
    (m i : String) (l : Option String) (q : String)
    → (((select_orchestration_mode m i l q).0 ≡ "controlled_react") ↔ IsControlled m i l q)
      × (((select_orchestration_mode m i l q).1 ≢ none) ↔ (
          (m ≡ "controlled_react") × ((select_orchestration_mode m i l q).0 ≢ "controlled_react")))
unfolding select_orchestration_mode
select_orchestration_mode_iff m i l q = (
  (select-IsControlled m i l q, IsControlled-select m i l q),
  (
    λ h.
        let (b, n) =
          selected-reason (str_eq m "llm_react") (str_eq m "controlled_react")
            (not (str_eq i "lot") || has_no_lot l) (names_defect q) h in
        ((eq_iff m "controlled_react").0 b, n),
    λ (e, n). fallback-select m i l q e n,
  ),
)
