-- ===== src/Tests/Tables.antt =====
-- The circuit breaker of the server and the tables of the FUSE client.
use native.Mathlib.Decide.{ℕ_discrete}
use fs.Base.{
  ℕ, ◌≡◌, refl, true, false, not, some, List, [], ◌∷◌, arith, nat_eq, chars, text_dec, text_eq,
}
use fs.Base.Map.{get, insert, remove}
use fs.Server.CircuitBreaker.{allow_request}
use fs.Server.CircuitBreaker.History.{Call, success, failure, run, held_back, allow_request-run}
use fs.Fuse.Inodes
use fs.Server.CircuitBreaker
use fs.Fuse.Inodes.{
  InodeTable, normalize_path, get_or_create_ino, get_ino, get_path, remove_path, rename,
}
use fs.Fuse.Inodes.Consistent.{
  IsConsistent, new-IsConsistent, get_or_create-IsConsistent, rename-IsConsistent,
}
use fs.Fuse.Inodes.Numbers.{rename_onto}
use fs.Fuse.Handles
use fs.Fuse.Handles.{HandleTable, insert_handle}

program : Unit {0}
unfolding normalize_path get insert remove get_or_create_ino get_ino get_path remove_path rename
    text_dec ℕ_discrete Inodes.new Handles.new insert_handle
program = tt

-- Two calls failed after a success, at 10 and at 12.
abbrev calls : List Call
calls = failure 12 ∷ failure 10 ∷ success ∷ []

allow_request-run_example : allow_request 20 (run 2 30 calls) ≡ not (held_back 2 30 20 calls)
allow_request-run_example = allow_request-run 2 30 20 calls (omega arith)

-- Held back at 20, let through at 42, when 30 have passed since the last failure.
allow_request_runs :
    (allow_request 20 (run 2 30 calls) ≡ false) × (allow_request 42 (run 2 30 calls) ≡ true)
unfolding allow_request run CircuitBreaker.record_failure CircuitBreaker.record_success
    CircuitBreaker.new
allow_request_runs = (refl, refl)

-- `/a` has number 2 and `/b` number 3.
abbrev one : InodeTable ℕ
one = (get_or_create_ino (chars "/a") (Inodes.new 5)).0

abbrev inodes : InodeTable ℕ
inodes = (get_or_create_ino (chars "b/") one).0

one-IsConsistent : IsConsistent one
unfolding program
one-IsConsistent =
    get_or_create-IsConsistent (Inodes.new 5) (new-IsConsistent 5) (chars "/a") (omega arith)

inodes-IsConsistent : IsConsistent inodes
unfolding program
inodes-IsConsistent = get_or_create-IsConsistent one one-IsConsistent (chars "b/") (omega arith)

rename-IsConsistent_example : IsConsistent (rename (chars "/a") (chars "/b") inodes)
rename-IsConsistent_example =
    rename-IsConsistent inodes inodes-IsConsistent (chars "/a") (chars "/b")

rename_onto_example :
    (get_path 3 (rename (chars "/a") (chars "/b") inodes) ≡ some (chars "/b"))
    × (get_ino (chars "/b") (rename (chars "/a") (chars "/b") inodes) ≡ some 2)
unfolding program
rename_onto_example =
    rename_onto inodes inodes-IsConsistent (chars "/a") (chars "/b") 2 3 refl refl (omega arith)

-- Files of the client are numbers here, as are the flag words.
abbrev no_files : HandleTable ℕ ℕ
no_files = Handles.new

abbrev one_file : HandleTable ℕ ℕ
one_file = (insert_handle 70 0 no_files).0
