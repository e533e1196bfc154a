-- ===== src/Tests/Registries.antt =====
-- The handle registry of core/src/handle.rs.
use native.Mathlib.Decide.{ℕ_discrete}
use mathlib.Core.Option
use fs.Base.{ℕ, ◌+◌, ◌≡◌, refl, none, [], ◌∷◌, arith, nat_eq, has, chars, text_eq}
use fs.Base.Map.{get, insert, remove}
use fs.Sdk.Error.{ok, err, not_found, invalid_handle}
use fs.Sdk.Types.{FileInfo, regular}
use fs.Sdk.Flags
use fs.Sdk.Provider.{Providers}
use fs.Sdk.Capabilities.{basic_rw}
use fs.Core.Handle.{
  HandleState, HandleRegistry, new, register, with_handle, cleanup_stale, cleanup_shards, stale_ids,
  remove_all, close_each,
}
use fs.Core.Handle.Registry.{lookup, IsValid, registered, touch, new-IsValid, register-IsValid}
use fs.Core.Handle.Cleanup.{kept, dropped, lookup-cleanup, cleanup-with_handle}

-- A world that counts the calls of `close`; nothing else of it is called here.
abbrev counting : Providers
counting = record {
  World = ℕ;
  capabilities = λ p. basic_rw;
  stat = λ p path w. (w, err (not_found path));
  wstat = λ p path c w. (w, err (not_found path));
  statfs = λ p path w. (w, err (not_found path));
  open_file = λ p path flags w. (w, err (not_found path));
  read = λ p h offset size w. (w, err (invalid_handle h));
  write = λ p h offset bytes w. (w, err (invalid_handle h));
  close = λ p h sync w. (w + 1, ok tt);
  readdir = λ p path w. (w, err (not_found path));
  remove = λ p path w. (w, err (not_found path));
}

abbrev info : FileInfo
info = record {
  path = chars "/a";
  size = 0;
  file_type = regular;
  mode = 0o644;
  uid = 0;
  gid = 0;
  atime = 1;
  mtime = 1;
  ctime = 1;
  etag = chars "1";
  symlink_target = none;
}

abbrev state : HandleState
state = registered 100 7 (chars "/a") Flags.read info 5

-- One handle, opened at time 100 with a TTL of 50.
abbrev one : HandleRegistry
one = (register 100 7 (chars "/a") Flags.read info 5 (new 50)).0

one-IsValid : IsValid one
unfolding new
one-IsValid =
    register-IsValid 100 7 (chars "/a") Flags.read info 5 (new 50) (new-IsValid 50) (omega arith)

program : Unit {0}
unfolding cleanup_stale cleanup_shards stale_ids remove_all close_each register new ℕ_discrete get
    insert remove
program = tt

stale_closed :
    ((cleanup_stale counting 151 one 0).2 ≡ 1 ∷ []) × ((cleanup_stale counting 151 one 0).1 ≡ 1)
unfolding program
stale_closed = (refl, refl)

lookup-cleanup_example :
    (lookup 1 (cleanup_stale counting 151 one 0).0 ≡ kept 151 one.ttl (lookup 1 one))
    × (has (cleanup_stale counting 151 one 0).2 1 ≡ dropped 151 one.ttl (lookup 1 one))
lookup-cleanup_example = lookup-cleanup counting 151 one one-IsValid 0 1

cleanup-with_handle_example :
    lookup 1
      (cleanup_stale counting 160 (with_handle 120 1 (λ (s : HandleState). s.path) one).0 0).0
    ≡ Option.map (touch 120) (lookup 1 one)
unfolding register new
cleanup-with_handle_example =
    cleanup-with_handle counting 120 160 1 one 0 (λ (s : HandleState). s.path) one-IsValid
      (omega arith)
