-- ===== src/Core/Paths.antt =====
-- `normalize_path` of core/src/providers/memfs/mod.rs; streamfs has the same function, and
-- `MountTable` the same after `str::trim`.
pub mod Normal
use fs.Base.{
  ℕ, ◌&&◌, not, Option, none, some, [], ◌∷◌, ◌==◌, eqb, text_eq, ltb, if◌then◌else◌, Text, slash,
  root, is_empty, starts_with, ends_with, trim_end_matches, utf8_len,
}

unfoldable pub with_slash : Text → Text
unfolding starts_with
with_slash path =
    let path' = if is_empty path then root else path in
    if not (starts_with path' root) then slash ∷ path' else path'

unfoldable pub trim_slashes : Text → Text
unfolding ends_with trim_end_matches utf8_len
trim_slashes path =
    if ltb 1 (utf8_len path) && ends_with path slash then trim_end_matches path slash else path

unfoldable pub normalize_path : Text → Text
unfolding with_slash trim_slashes
normalize_path path = trim_slashes (with_slash path)

-- `rsplitn(2, '/')`: what stands before the last `/`, if there is one.
unfoldable pub before_last : Text → ℕ → Option Text
before_last [] c = none
before_last (d ∷ s) c = elim (before_last s c) [
  | some t ↦ some (d ∷ t)
  | none ↦ if eqb d c then some [] else none
]

unfoldable pub after_last : Text → ℕ → Text
after_last [] c = []
after_last (d ∷ s) c = elim (before_last s c) [
  | some t ↦ after_last s c
  | none ↦ if eqb d c then s else d ∷ s
]

unfoldable pub parent_path : Text → Option Text
unfolding before_last normalize_path
parent_path path =
    let path' = normalize_path path in
    if path' == root then none else elim (before_last path' slash) [
      | some parent ↦ some (if is_empty parent then root else parent)
      | none ↦ some root
    ]
