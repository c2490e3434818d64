-- ===== src/Cache.antt =====
-- The cache in memory (src/common/cache/memory-cache.service.ts): a Map of entries with an end, in the
-- milliseconds of the clock. The order of the Map is never seen. Values are those that are not
-- `undefined`, which a cache never counts as a hit.
pub mod Refines
pub mod Tests
use hrm_backend.Prelude.{
  ℕ, ◌+◌, String, Bool, true, false, not, Option, none, some, List, [], ◌∷◌, keep, ltb, ◌===◌,
  if◌then◌else◌,
}
use text.Mathlib.Text.{starts_with}

pub record Entry {ℓ} (V : Type ℓ) : Type ℓ where
  pub value : V
  pub expires : ℕ

abbrev pub Store {ℓ} : Type ℓ → Type ℓ
Store V = List (String × Entry V)

-- The calls on a cache, and the sweeper's.
pub data Request {ℓ} (V : Type ℓ) : Type ℓ where
  gets : String → Request V
  sets : String → V → (ttl : ℕ) → Request V
  deletes : String → Request V
  deletes_by_prefix : String → Request V
  clears : Request V
  sweeps : Request V

module _ {ℓ} {V : Type ℓ} where
  -- `Map.get`
  abbrev pub lookup : String → Store V → Option (Entry V)
  lookup key [] = none
  lookup key ((k, e) ∷ rows) = let rest = lookup key rows in if key === k then some e else rest

  abbrev pub is_expired : ℕ → Entry V → Bool
  is_expired now e = ltb e.expires now

  abbrev pub entry_until : V → ℕ → Entry V
  entry_until value until = record { value = value; expires = until }

  unfoldable pub delete : String → Store V → Store V
  delete key = keep (λ row. not (row.0 === key))

  unfoldable pub get : ℕ → String → Store V → Store V × Option V
  unfolding delete
  get now key c = elim (lookup key c) [
    | none ↦ (c, none)
    | some e ↦ if is_expired now e then (delete key c, none) else (c, some e.value)
  ]

  unfoldable pub set : ℕ → String → V → ℕ → Store V → Store V
  unfolding delete
  set now key value ttl c = (key, entry_until value (now + ttl)) ∷ delete key c

  -- The value is made from `now` to `finished`, where the cache does not hold it.
  unfoldable pub wrap : ℕ → String → ℕ → ℕ → V → Store V → Store V × V
  unfolding get set
  wrap now key ttl finished made c =
      let (left, answer) = get now key c in
      elim answer [ some hit ↦ (left, hit) | none ↦ (set finished key made ttl left, made) ]

  unfoldable pub delete_by_prefix : String → Store V → Store V
  delete_by_prefix prefix = keep (λ row. not (starts_with row.0 prefix))

  unfoldable pub sweep : ℕ → Store V → Store V
  sweep now = keep (λ row. not (is_expired now row.1))

  unfoldable pub handle : ℕ → Request V → Store V → Store V × Option V
  unfolding get set delete delete_by_prefix sweep
  handle now (Request.gets key) c = get now key c
  handle now (Request.sets key value ttl) c = (set now key value ttl c, none)
  handle now (Request.deletes key) c = (delete key c, none)
  handle now (Request.deletes_by_prefix prefix) c = (delete_by_prefix prefix c, none)
  handle now Request.clears c = ([], none)
  handle now Request.sweeps c = (sweep now c, none)
