-- ===== src/Cache/Tests.antt =====
-- A cache with a short life, and what it answers (src/common/cache/memory-cache.service.ts).
use hrm_backend.Prelude.{ℕ, ◌≡◌, refl, none, some, List, [], ◌∷◌, arith}
use hrm_backend.Cache.{Request, handle, get, set, delete, delete_by_prefix, sweep}
use hrm_backend.Cache.Refines.{IsChronological, answers, table_handle, handle-refines}

abbrev calls : List (ℕ × Request ℕ)
calls =
    (10, Request.sets "perms:7" 1 30)
    ∷ (12, Request.sets "org" 2 100)
    ∷ (40, Request.gets "perms:7")
    ∷ (41, Request.sweeps)
    ∷ (42, Request.gets "perms:7")
    ∷ (43, Request.sets "perms:8" 3 30)
    ∷ (44, Request.deletes_by_prefix "perms:")
    ∷ (45, Request.gets "perms:8")
    ∷ (46, Request.gets "org")
    ∷ []

calls_answered :
    answers handle calls [] ≡ none ∷ none ∷ some 1 ∷ none ∷ none ∷ none ∷ none ∷ none ∷ some 2 ∷ []
unfolding handle get set delete delete_by_prefix sweep
calls_answered = refl

calls-IsChronological : IsChronological 0 calls
unfolding IsChronological
calls-IsChronological = (
  omega arith,
  (
    omega arith,
    (
      omega arith,
      (omega arith, (omega arith, (omega arith, (omega arith, (omega arith, (omega arith, tt)))))),
    ),
  ),
)

handle-refines_example : answers handle calls [] ≡ answers table_handle calls (λ k. none)
handle-refines_example = handle-refines calls calls-IsChronological
