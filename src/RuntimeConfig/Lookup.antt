-- ===== src/RuntimeConfig/Lookup.antt =====
-- A setting that is set and read again (src/runtime-config/runtime-config.service.ts).
use dupdap_backend.Base.{
  ℕ, ◌≡◌, refl, Bool, true, false, not, ◌==◌, Option, none, some, Dict, [], ◌∷◌, lookup,
  lookup-insert, filter, if◌then◌else◌, arith, ◌∙◌, ==_iff,
}
use dupdap_backend.RuntimeConfig.{
  RuntimeConfig, value_of, null_value, Settings, read_table, get, set, invalidate, cache_get,
}

lookup-removed : (key : ℕ) (d : Dict ℕ) → lookup key (filter (λ e. not (e.0 == key)) d) ≡ none
lookup-removed key [] = refl
lookup-removed key ((k, v) ∷ d) = ground (arith, lookup-removed key d)

get-missing :
    (defaults : ℕ → Option ℕ) (default_value : Option ℕ) (key : ℕ) (s : Settings)
    → lookup key s.cached ≡ none
    → (get true defaults default_value key s).1 ≡ null_value
unfolding get
get-missing defaults default_value key s h =
    let missed : cache_get key s ≡ null_value = rw (h, cache_get) refl in rw missed refl

read_table-held :
    (defaults : ℕ → Option ℕ) (default_value : Option ℕ) (key : ℕ) (s : Settings)
    {config : RuntimeConfig}
    → lookup key s.configs ≡ some config
    → (read_table false defaults default_value key s).1 ≡ value_of config.value
unfolding read_table
read_table-held defaults default_value key s h = rw (h, read_table) refl

-- A setting that has just been set: without a cache a caller reads the value, whatever the defaults
-- are; with a cache a caller reads null, whatever value has been set.
pub get-set :
    (has_cache : Bool) (defaults : ℕ → Option ℕ) (default_value : Option ℕ)
    (key value updated_by : ℕ) (description : Option ℕ) (s : Settings)
    → (get has_cache defaults default_value key
        (set has_cache key value updated_by description s).0).1
      ≡ (if has_cache then null_value else value_of value)
unfolding get set invalidate
get-set true defaults default_value key value updated_by description s =
    let s' = (set true key value updated_by description s).0 in
    get-missing defaults default_value key s' (lookup-removed key s.cached)
get-set false defaults default_value key value updated_by description s =
    let (s', saved) = set false key value updated_by description s in
    let held : lookup key s'.configs ≡ some saved =
      lookup-insert key key saved s.configs ∙ rw ((==_iff key key).1 refl) refl in
    read_table-held defaults default_value key s' {config = saved} held
