-- ===== src/Cache/Refines.antt =====
-- The cache against its contract: a table that forgets nothing by itself, of which entries past
-- their end are not read (src/common/cache/memory-cache.service.ts).
use hrm_backend.Prelude.{
  ℕ, ◌+◌, ◌≤◌, String, ◌≡◌, refl, sym, ap, ◌∙◌, subst, Bool, true, false, not, Option, none, some,
  List, [], ◌∷◌, keep, ltb, ◌===◌, if◌then◌else◌, Bool-cases, Option-cases, inl, inr, eq_iff, arith,
}
use text.Mathlib.Text.{starts_with}
use hrm_backend.Cache.{
  Entry, Store, Request, lookup, is_expired, entry_until, get, set, delete, delete_by_prefix, sweep,
  handle, wrap,
}

-- The table of the contract.
abbrev pub Table {ℓ} : Type ℓ → Type ℓ
Table V = String → Option (Entry V)

module _ {ℓ} {V : Type ℓ} where
  -- What may be read of an entry.
  abbrev pub visible : ℕ → Option (Entry V) → Option V
  visible now none = none
  visible now (some e) = if is_expired now e then none else some e.value

  unfoldable pub table_handle : ℕ → Request V → Table V → Table V × Option V
  table_handle now (Request.gets key) s = (s, visible now (s key))
  table_handle now (Request.sets key value ttl) s =
      (λ k. if k === key then some (entry_until value (now + ttl)) else s k, none)
  table_handle now (Request.deletes key) s = (λ k. if k === key then none else s k, none)
  table_handle now (Request.deletes_by_prefix prefix) s =
      (λ k. if starts_with k prefix then none else s k, none)
  table_handle now Request.clears s = (λ k. none, none)
  table_handle now Request.sweeps s = (s, none)

  -- A `Map` has every key once.
  IsUnique : Store V → Type ℓ
  IsUnique [] = Unit
  IsUnique ((k, e) ∷ rows) = (lookup k rows ≡ none) × IsUnique rows

  abbrev filtered : (String × Entry V → Bool) → String → Option (Entry V) → Option (Entry V)
  filtered p key none = none
  filtered p key (some e) = if p (key, e) then some e else none

  lookup-keep :
      (p : String × Entry V → Bool) (key : String) (c : Store V)
      → IsUnique c
      → lookup key (keep p c) ≡ filtered p key (lookup key c)
  unfolding IsUnique
  lookup-keep p key [] u = refl
  lookup-keep p key ((k, e) ∷ rows) (alone, u) =
      let rest = lookup-keep p key rows u in
      elim (Bool-cases (key === k)) [
        | inl same ↦
            let here : key ≡ k = (eq_iff _ _).0 same in
            let gone : lookup key rows ≡ none =
              subst (λ x. lookup x rows ≡ none) (sym here) alone in
            let moved : p (k, e) ≡ p (key, e) = ap (λ x. p (x, e)) (sym here) in
            elim (Bool-cases (p (key, e))) [
              | inl kept ↦ rw (moved, same, kept, same) refl
              | inr gone_too ↦ rw (moved, same, gone_too, rest, gone) refl
            ]
        | inr other ↦ elim (Bool-cases (p (k, e))) [
          | inl kept ↦ rw (kept, other, rest) refl
          | inr gone_too ↦ rw (gone_too, other, rest) refl
        ]
      ]

  keep-IsUnique : (p : String × Entry V → Bool) (c : Store V) → IsUnique c → IsUnique (keep p c)
  unfolding IsUnique
  keep-IsUnique p [] u = tt
  keep-IsUnique p ((k, e) ∷ rows) (alone, u) =
      let rest = keep-IsUnique p rows u in
      elim (Bool-cases (p (k, e))) [
        | inl kept ↦ rw kept (lookup-keep p k rows u ∙ rw alone refl, rest)
        | inr gone_too ↦ rw gone_too rest
      ]

  -- From `now` on a cache and a table read alike.
  Represents : ℕ → Store V → Table V → Type ℓ
  Represents now c s =
      IsUnique c × ((key : String) (t : ℕ) → now ≤ t → visible t (lookup key c) ≡ visible t (s key))

  visible-expired :
      (now t : ℕ) (e : Entry V) → now ≤ t → is_expired now e ≡ true → visible t (some e) ≡ none
  visible-expired now t e h over =
      let still : is_expired t e ≡ true = ground (arith, h, over) in rw still refl

  visible-sweep :
      (now t : ℕ) (key : String) (o : Option (Entry V))
      → now ≤ t
      → visible t (filtered (λ row. not (is_expired now row.1)) key o) ≡ visible t o
  visible-sweep now t key none h = refl
  visible-sweep now t key (some e) h = elim (Bool-cases (is_expired now e)) [
    | inl over ↦ rw over (sym (visible-expired now t e h over))
    | inr held ↦ rw held refl
  ]

  -- Rows dropped by their key alone.
  filtered_by_key :
      (b : Bool) (p : String × Entry V → Bool) (key : String) (o : Option (Entry V)) (t : ℕ)
      (i : Option (Entry V))
      → ((e : Entry V) → p (key, e) ≡ not b)
      → visible t o ≡ visible t i
      → visible t (filtered p key o) ≡ visible t (if b then none else i)
  filtered_by_key true p key none t i h same = refl
  filtered_by_key true p key (some e) t i h same = rw (h e) refl
  filtered_by_key false p key none t i h same = same
  filtered_by_key false p key (some e) t i h same = rw (h e) same

  drops-Represents :
      (dropped : String → Bool) (now : ℕ) (c : Store V) (s : Table V)
      → Represents now c s
      → Represents now (keep (λ row. not (dropped row.0)) c) (λ k. if dropped k then none else s k)
  unfolding Represents
  drops-Represents dropped now c s (u, same) = (
    keep-IsUnique (λ row. not (dropped row.0)) c u,
    λ key t h.
        subst
          (λ (o : Option (Entry V)). visible t o ≡ visible t (if dropped key then none else s key))
          (sym (lookup-keep (λ row. not (dropped row.0)) key c u))
          (filtered_by_key (dropped key) (λ row. not (dropped row.0)) key (lookup key c) t (s key)
            (λ e. refl) (same key t h)),
  )

  sweep-Represents :
      (now : ℕ) (c : Store V) (s : Table V) → Represents now c s → Represents now (sweep now c) s
  unfolding Represents sweep
  sweep-Represents now c s (u, same) = (
    keep-IsUnique (λ row. not (is_expired now row.1)) c u,
    λ key t h.
        ap (visible t) (lookup-keep (λ row. not (is_expired now row.1)) key c u)
        ∙ visible-sweep now t key (lookup key c) h
        ∙ same key t h,
  )

  later_Represents :
      (now t : ℕ) (c : Store V) (s : Table V) → now ≤ t → Represents now c s → Represents t c s
  unfolding Represents
  later_Represents now t c s h (u, same) = (u, λ key later g. same key later (ground (arith, h, g)))

  filtered_never :
      (p : String × Entry V → Bool) (key : String) (o : Option (Entry V))
      → ((e : Entry V) → p (key, e) ≡ false)
      → filtered p key o ≡ none
  filtered_never p key none never = refl
  filtered_never p key (some e) never = rw (never e) refl

  filtered_always :
      (p : String × Entry V → Bool) (key : String) (o : Option (Entry V))
      → ((e : Entry V) → p (key, e) ≡ true)
      → filtered p key o ≡ o
  filtered_always p key none always = refl
  filtered_always p key (some e) always = rw (always e) refl

  lookup-delete : (key : String) (c : Store V) → IsUnique c → lookup key (delete key c) ≡ none
  unfolding delete
  lookup-delete key c u =
      lookup-keep (λ row. not (row.0 === key)) key c u
      ∙ filtered_never (λ row. not (row.0 === key)) key (lookup key c)
          (λ e. ap not ((eq_iff key key).1 refl))

  lookup-delete_other :
      (key other : String) (c : Store V)
      → IsUnique c
      → (other === key) ≡ false
      → lookup other (delete key c) ≡ lookup other c
  unfolding delete
  lookup-delete_other key other c u differ =
      lookup-keep (λ row. not (row.0 === key)) other c u
      ∙ filtered_always (λ row. not (row.0 === key)) other (lookup other c) (λ e. ap not differ)

  set-Represents :
      (now : ℕ) (key : String) (e : Entry V) (c : Store V) (s : Table V)
      → Represents now c s
      → Represents now ((key, e) ∷ delete key c) (λ k. if k === key then some e else s k)
  unfolding Represents delete IsUnique
  set-Represents now key e c s (u, same) = (
    (lookup-delete key c u, keep-IsUnique (λ row. not (row.0 === key)) c u),
    λ k t h. elim (Bool-cases (k === key)) [
      | inl here ↦ rw here refl
      | inr other ↦ rw (other, lookup-delete_other key k c u other) (same k t h)
    ],
  )

  expired-Represents :
      (now : ℕ) (key : String) (e : Entry V) (c : Store V) (s : Table V)
      → lookup key c ≡ some e
      → is_expired now e ≡ true
      → Represents now c s
      → Represents now (delete key c) s
  unfolding Represents delete
  expired-Represents now key e c s found over (u, same) = (
    keep-IsUnique (λ row. not (row.0 === key)) c u,
    λ k t h. elim (Bool-cases (k === key)) [
      | inl here ↦
          let at_key : k ≡ key = (eq_iff _ _).0 here in
          subst (λ x. visible t (lookup x (delete key c)) ≡ visible t (s x)) (sym at_key)
            (ap (visible t) (lookup-delete key c u)
              ∙ sym (visible-expired now t e h over)
              ∙ ap (visible t) (sym found)
              ∙ same key t h)
      | inr other ↦ rw (lookup-delete_other key k c u other) (same k t h)
    ],
  )

  reads :
      (now : ℕ) (key : String) (c : Store V) (s : Table V)
      → Represents now c s
      → visible now (lookup key c) ≡ visible now (s key)
  unfolding Represents
  reads now key c s (u, same) = same key now (omega arith)

  -- One request, answered alike and leaving both alike.
  handle-Represents :
      (now : ℕ) (r : Request V) (c : Store V) (s : Table V)
      → Represents now c s
      → ((handle now r c).1 ≡ (table_handle now r s).1)
        × Represents now (handle now r c).0 (table_handle now r s).0
  unfolding handle table_handle get set delete delete_by_prefix Represents IsUnique
  handle-Represents now (Request.gets key) c s r = elim (Option-cases (lookup key c)) [
    | inl e ↦ rw (get, e) (ap (visible now) (sym e) ∙ reads now key c s r, r)
    | inr (entry, e) ↦ elim (Bool-cases (is_expired now entry)) [
      | inl over ↦
          rw (get, e, over)
            (
              sym (visible-expired now now entry (omega arith) over)
                  ∙ ap (visible now) (sym e)
                  ∙ reads now key c s r,
              expired-Represents now key entry c s e over r,
            )
      | inr held ↦
          let shown : visible now (some entry) ≡ some entry.value = rw held refl in
          rw (get, e, held) (sym shown ∙ ap (visible now) (sym e) ∙ reads now key c s r, r)
    ]
  ]
  handle-Represents now (Request.sets key value ttl) c s r =
      (refl, set-Represents now key (entry_until value (now + ttl)) c s r)
  handle-Represents now (Request.deletes key) c s r =
      (refl, drops-Represents (λ k. k === key) now c s r)
  handle-Represents now (Request.deletes_by_prefix prefix) c s r =
      (refl, drops-Represents (λ k. starts_with k prefix) now c s r)
  handle-Represents now Request.clears c s r = (refl, (tt, λ key t h. refl))
  handle-Represents now Request.sweeps c s r = (refl, sweep-Represents now c s r)

-- Requests in the order of their instants, from `now` on.
unfoldable pub IsChronological {ℓ} : {V : Type ℓ} → ℕ → List (ℕ × Request V) → Type ℓ
IsChronological now [] = Unit
IsChronological now ((t, r) ∷ rest) = (now ≤ t) × IsChronological t rest

-- The answers to one request after another.
abbrev pub answers {ℓ} :
    {V S : Type ℓ} → (ℕ → Request V → S → S × Option V) → List (ℕ × Request V) → S → List (Option V)
answers step [] s = []
answers step ((t, r) ∷ rest) s = (step t r s).1 ∷ answers step rest (step t r s).0

module _ {ℓ} {V : Type ℓ} where
  answers-handle :
      (now : ℕ) (rs : List (ℕ × Request V)) (c : Store V) (s : Table V)
      → IsChronological now rs
      → Represents now c s
      → answers handle rs c ≡ answers table_handle rs s
  unfolding IsChronological
  answers-handle now [] c s order r = refl
  answers-handle now ((t, request) ∷ rest) c s (h, order) r =
      let (same, left) = handle-Represents t request c s (later_Represents now t c s h r) in
      rw same (
        ap (λ l. (table_handle t request s).1 ∷ l)
          (answers-handle t rest (handle t request c).0 (table_handle t request s).0 order left))

  -- Whatever requests a new cache gets, in the order of the clock, sweeps among them, it answers as a
  -- table does that forgets nothing by itself and does not show what is past its end.
  pub handle-refines :
      (rs : List (ℕ × Request V))
      → IsChronological 0 rs
      → answers handle rs [] ≡ answers table_handle rs (λ k. none)
  unfolding Represents IsUnique
  handle-refines rs order = answers-handle 0 rs [] (λ k. none) order (tt, λ key t h. refl)

  -- What was made where the cache had nothing is the answer until its end, and is not made again.
  pub wrap-wrap :
      (now finished t : ℕ) (key : String) (ttl ttl' finished' : ℕ) (made other : V) (c : Store V)
      → (get now key c).1 ≡ none
      → t ≤ finished + ttl
      → (wrap t key ttl' finished' other (wrap now key ttl finished made c).0).1 ≡ made
  unfolding wrap set get
  wrap-wrap now finished t key ttl ttl' finished' made other c miss h =
      let same : (key === key) ≡ true = (eq_iff key key).1 refl in
      let held : ltb (finished + ttl) t ≡ false = ground (arith, h) in
      rw (wrap, miss, set, wrap, get, same, held) refl
