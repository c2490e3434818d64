-- ===== src/UnitName.antt =====
-- The comparison key of a unit's name (src/common/util/normalize-unit.ts).
use Prim.Native.Char.{Char, code}
use Prim.Native.String.{[], ◌∷◌}
use hrm_backend.Prelude.{
  String, Bool, true, false, ◌&&◌, ◌||◌, not, ◌==◌, if◌then◌else◌, trim, is_space, nonempty, ◌===◌,
  ◌+++◌,
}

-- `s.replace(/\s+/g, ' ')`; `spaced` says that the character before was white space.
abbrev collapse : (spaced : Bool) → String → String
collapse spaced [] = []
collapse spaced (c ∷ s) =
    let inside = collapse true s in
    let after = collapse false s in
    if is_space c then (if spaced then inside else " " +++ inside) else c ∷ after

-- The characters of the class `[.,;:’'`-]`.
abbrev is_punctuation : Char → Bool
is_punctuation c =
    code c == 46
    || code c == 44
    || code c == 59
    || code c == 58
    || code c == 0x2019
    || code c == 39
    || code c == 96
    || code c == 45

-- `s.replace(/[…]+$/g, '')`
unfoldable pub strip_end : String → String
strip_end [] = []
strip_end (c ∷ s) =
    let rest = strip_end s in if is_punctuation c && not (nonempty rest) then [] else c ∷ rest

-- `lower` is JavaScript's `toLowerCase`.
unfoldable pub normalize_unit_name : (lower : String → String) → String → String
normalize_unit_name lower name = lower (trim (strip_end (collapse false (trim name))))

unfoldable pub same_unit : (lower : String → String) → String → String → Bool
same_unit lower a b = normalize_unit_name lower a === normalize_unit_name lower b
