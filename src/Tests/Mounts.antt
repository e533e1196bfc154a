-- ===== src/Tests/Mounts.antt =====
-- The mount table of core/src/mount.rs and the paths of the providers.
use native.Mathlib.Decide.{ℕ_discrete}
use fs.Base.{
  ℕ, String, ◌≡◌, refl, ◌≢◌, [], ◌∷◌, nat_eq, Text, chars, text_dec, text_eq, root, false, is_empty,
}
use fs.Base.Map.{get}
use fs.Base.Order.{text_lt, IsSorted}
use fs.Sdk.Error.{ok}
use fs.Base.Whitespace.{trim}
use fs.Core.Paths.{normalize_path}
use fs.Core.Mount.{
  resolve_loop, range_rev, resolve_at, slash_next, MountTable, MountEntry, mount, unmount, resolve,
  normalize_mount_path,
}
use fs.Core.Mount.Resolve.{longest_mount, answer, resolve-longest_mount}
use fs.Core.Mount.Table.{resolve-mount, unmount-mount}

program : Unit {0}
unfolding mount unmount resolve normalize_mount_path normalize_path get text_lt text_dec ℕ_discrete
    resolve_loop range_rev trim resolve_at slash_next
program = tt

abbrev pub entry : String → String → ℕ → MountEntry
entry path name provider = record {
  mount_point = record { path = chars path; provider_name = chars name };
  provider = provider;
}

-- Mounts at the root, at `/data` and at `/database`.
abbrev pub table : MountTable
table = record {
  mounts =
      (chars "/", entry "/" "root" 1)
      ∷ (chars "/data", entry "/data" "data" 2)
      ∷ (chars "/database", entry "/database" "db" 3)
      ∷ [];
}

resolve_below : resolve (chars " /data/a/b/ ") table ≡ ok (2, chars "/a/b")
unfolding program
resolve_below = refl

resolve_component : resolve (chars "/databases") table ≡ ok (1, chars "/databases")
unfolding program
resolve_component = refl

pub table-IsSorted : IsSorted table.mounts
unfolding program
table-IsSorted = ((refl, (refl, tt)), ((refl, tt), (tt, tt)))

not_empty : (p : Text) → is_empty p ≡ false → p ≢ []
not_empty [] h = cc
not_empty (c ∷ p) h = λ e. cc

path_not_empty : normalize_mount_path (chars "/data/a") ≢ []
unfolding program
path_not_empty = not_empty _ refl

resolve-longest_mount_example :
    resolve (chars "/data/a") table
    ≡ answer
        (normalize_mount_path (chars "/data/a"))
        (longest_mount (normalize_mount_path (chars "/data/a")) table.mounts)
resolve-longest_mount_example =
    resolve-longest_mount (chars "/data/a") table table-IsSorted path_not_empty

resolve-mount_example :
    resolve (chars "/data/a") (mount (chars "/data/a") (chars "x") 9 table).0 ≡ ok (9, root)
unfolding program
resolve-mount_example =
    resolve-mount (chars "/data/a") (chars "x") 9 table table-IsSorted path_not_empty refl

unmount-mount_example :
    ((unmount (chars "/data/a") (mount (chars "/data/a") (chars "x") 9 table).0).1 ≡ ok 9)
    × ((j : Text)
        → get (unmount (chars "/data/a") (mount (chars "/data/a") (chars "x") 9 table).0).0.mounts j
          ≡ get table.mounts j)
unfolding program
unmount-mount_example = unmount-mount (chars "/data/a") (chars "x") 9 table refl
