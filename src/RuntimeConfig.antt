-- ===== src/RuntimeConfig.antt =====
-- src/runtime-config/runtime-config.service.ts. A value is a number; the cache is the one of
-- src/cache/cache.service.ts, whose `get` answers null on a miss, and its entries do not run out here. A
-- setting's default is what the call brings, or that of the table of defaults, which is an argument.
pub mod Lookup
use dupdap_backend.Base.{
  ℕ, Bool, true, false, List, [], ◌∷◌, ◌++◌, ◌==◌, Option, none, some, Dict, lookup, insert, filter,
  not, if◌then◌else◌,
}

pub record RuntimeConfig : Type 0 where
  pub value : ℕ
  pub description : Option ℕ
  pub updated_by : ℕ

pub record AuditLog : Type 0 where
  pub actor : ℕ
  pub key : ℕ
  pub before : Option ℕ
  pub after : ℕ

-- What a caller of `get` receives: a value, null or undefined.
pub data Answer : Type 0 where
  value_of : ℕ → Answer
  null_value undefined : Answer

pub record Settings : Type 0 where
  pub configs : Dict RuntimeConfig
  pub cached : Dict ℕ
  pub audit_log : List AuditLog

abbrev or_undefined : Option ℕ → Answer
or_undefined none = undefined
or_undefined (some value) = value_of value

-- `defaultValue ?? SETTLEMENT_CONFIG_DEFAULTS[key]`
abbrev pub default_of : (defaults : ℕ → Option ℕ) (default_value : Option ℕ) (key : ℕ) → Answer
default_of defaults none key = or_undefined (defaults key)
default_of defaults (some value) key = value_of value

-- `cacheService.get`: null on a miss.
abbrev pub cache_get : (key : ℕ) → Settings → Answer
cache_get key s = elim (lookup key s.cached) [ none ↦ null_value | some value ↦ value_of value ]

abbrev is_undefined : Answer → Bool
is_undefined undefined = true
is_undefined _ = false

-- The table and, where there is a cache, its filling.
unfoldable pub read_table :
    (has_cache : Bool) (defaults : ℕ → Option ℕ) (default_value : Option ℕ) (key : ℕ)
    → Settings
    → Settings × Answer
read_table has_cache defaults default_value key s = elim (lookup key s.configs) [
  | none ↦ (s, default_of defaults default_value key)
  | some config ↦ (
    if has_cache then record s { cached = insert key config.value s.cached } else s,
    value_of config.value,
  )
]

unfoldable pub get :
    (has_cache : Bool) (defaults : ℕ → Option ℕ) (default_value : Option ℕ) (key : ℕ)
    → Settings
    → Settings × Answer
get has_cache defaults default_value key s =
    if has_cache
    then (if is_undefined (cache_get key s)
        then read_table has_cache defaults default_value key s
        else (s, cache_get key s))
    else read_table has_cache defaults default_value key s

unfoldable pub invalidate : (has_cache : Bool) (key : ℕ) → Settings → Settings
invalidate has_cache key s =
    if has_cache then record s { cached = filter (λ e. not (e.0 == key)) s.cached } else s

abbrev kept_description : (given before : Option ℕ) → Option ℕ
kept_description none before = before
kept_description (some description) before = some description

unfoldable pub set :
    (has_cache : Bool) (key value updated_by : ℕ) (description : Option ℕ)
    → Settings
    → Settings × RuntimeConfig
set has_cache key value updated_by description s =
    let found = lookup key s.configs in
    let saved : RuntimeConfig = record {
      value = value;
      description = elim found [
        | none ↦ description
        | some config ↦ kept_description description config.description
      ];
      updated_by = updated_by;
    } in
    let entry : AuditLog = record {
      actor = updated_by;
      key = key;
      before = elim found [ none ↦ none | some config ↦ some config.value ];
      after = value;
    } in
    let s' = invalidate has_cache key (record s { configs = insert key saved s.configs }) in
    (record s' { audit_log = s'.audit_log ++ entry ∷ [] }, saved)
