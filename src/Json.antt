-- ===== src/Json.antt =====
-- JSON payloads that the backend stores (backend/yield_rca_api/store.py), and the check that
-- refuses secrets and hidden model reasoning in them.
use autonomous_qwen_react.Prelude.{
  ℕ, ℤ, String, Bool, List, [], ◌∷◌, Option, none, some, map, filter, any, codes, codes_eq, lower,
  is_alnum, Result, ok, ◌>>◌, raise_if,
}

-- `instant` is the text that `isoformat` makes of an instant; `number` is an
-- integer, and `float` any other number, by its `repr` and whether it is zero.
mutual
  pub data Json : Type 0 where
    null : Json
    bool : Bool → Json
    number : ℤ → Json
    float : (is_zero : Bool) → (repr : String) → Json
    text : String → Json
    instant : ℕ → Json
    array : Items → Json
    object : Fields → Json

  pub data Items : Type 0 where
    end : Items
    item : Json → Items → Items

  pub data Fields : Type 0 where
    nil : Fields
    field : String → Json → Fields → Fields

-- `None` is `null`.
abbrev pub optional_text : Option String → Json
optional_text none = null
optional_text (some s) = text s

-- `_FORBIDDEN_QUEUE_KEYS`
abbrev pub forbidden_queue_keys : List String
forbidden_queue_keys =
    "apikey" ∷ "authorization" ∷ "chainofthought" ∷ "dashscopeapikey" ∷ "hiddenreasoning" ∷ []

-- The key in lower case, without what is no letter and no digit, on ASCII.
unfoldable pub normalized_key : String → List ℕ
normalized_key key = filter is_alnum (map lower (codes key))

unfoldable pub is_forbidden : String → Bool
unfolding normalized_key
is_forbidden key = any (λ k. codes_eq (codes k) (normalized_key key)) forbidden_queue_keys

pub data SensitiveField : Type 0 where
  sensitive_field : String → SensitiveField

-- `_validate_no_sensitive_fields`, over a value, the items of a list and the fields of an object.
unfoldable mutual
  unfolding is_forbidden

  pub validate_no_sensitive_fields : Json → Result SensitiveField (Unit {0})
  validate_no_sensitive_fields (object fs) = validate_fields fs
  validate_no_sensitive_fields (array xs) = validate_items xs
  validate_no_sensitive_fields _ = ok tt

  pub validate_items : Items → Result SensitiveField (Unit {0})
  validate_items end = ok tt
  validate_items (item x xs) = do validate_no_sensitive_fields x; validate_items xs

  pub validate_fields : Fields → Result SensitiveField (Unit {0})
  validate_fields nil = ok tt
  validate_fields (field key value fs) = do
    raise_if (is_forbidden key) (sensitive_field key)
    validate_no_sensitive_fields value
    validate_fields fs
