-- ===== src/Plugins/Kv/Sorted.antt =====
-- The store of plugins/kv/src/lib.rs between calls: ordered, with a directory at the root.
use mathlib.Core.Path.{subst}
use fs.Base.{
  ℕ, Bool, true, false, none, ◌≡◌, refl, if◌then◌else◌, ◌==◌, [], ◌∷◌, List, ltb, length, ◌+◌, ◌^◌,
  Text, text_eq, root, Option-cases, inl, inr, Bool-cases, nat_eq, Option,
}
use fs.Base.Map
use fs.Base.Map.{Map, get}
use fs.Base.Order.{insert_sorted}
use fs.Sdk.Error.{FsResult, FsResult-cases, ok, err, panic, not_found}
use fs.Sdk.Types.{OpenFlags}
use fs.Sdk.Provider.{Handle, Bytes}
use fs.Core.MemFs.Io.{write_content}
use fs.Plugins.Kv.Provider.{
  KvProvider, KvEntry, dir, file, is_dir, new, normalize_path, prepare, open_file, stat, write,
  write_entry, remove, has_children, wstat, changed, parent_path, close,
}
use fs.Plugins.Kv.Entries.{IsStore, new-IsStore, add-IsStore, put-IsStore, remove_one-IsStore}

-- A store, if the call gives one.
abbrev Gives : FsResult (Map Text KvEntry) → Type 0
Gives (ok store) = IsStore store
Gives (err e) = Unit
Gives panic = Unit

prepare-Gives :
    (now : ℕ) (path : Text) (flags : OpenFlags) (store : Map Text KvEntry)
    → IsStore store
    → Gives (prepare now path flags store)
unfolding prepare
prepare-Gives now path flags store w = elim (Option-cases (get store path)) [
  | inl g ↦
      rw (prepare, g)
        (absent g flags.create flags.directory (Map.contains_key store (parent_path path)))
  | inr (entry, g) ↦ rw (prepare, g) (present flags.create)
]
  where
    absent :
        get store path ≡ none
        → (create directory parent : Bool)
        → Gives (
            if create
            then (if directory
                then ok (insert_sorted store path (dir 0o755 now))
                else if parent
                then ok (insert_sorted store path (file [] 0o644 now))
                else err (not_found (parent_path path)))
            else err (not_found path))
    absent g true true parent = add-IsStore store path (dir 0o755 now) w g
    absent g true false true = add-IsStore store path (file [] 0o644 now) w g
    absent g true false false = tt
    absent g false directory parent = tt

    present : (create : Bool) → Gives (if create then ok store else ok store)
    present true = w
    present false = w

Gives-ok :
    (r : FsResult (Map Text KvEntry)) (store : Map Text KvEntry)
    → Gives r
    → r ≡ ok store
    → IsStore store
Gives-ok r store w e = subst Gives e w

open-IsStore :
    (now : ℕ) (path : Text) (flags : OpenFlags) (m : KvProvider)
    → IsStore m.store
    → IsStore (open_file now path flags m).0.store
unfolding open_file
open-IsStore now path flags m w =
    elim (FsResult-cases (prepare now (normalize_path path) flags m.store)) [
      | inl (store, e) ↦
          let w' = Gives-ok _ store (prepare-Gives now (normalize_path path) flags m.store w) e in
          elim (FsResult-cases (stat (normalize_path path) (record m { store = store }))) [
            | inl (info, f) ↦ rw (open_file, e, f) w'
            | inr (inl (x, f)) ↦ rw (open_file, e, f) w'
            | inr (inr f) ↦ rw (open_file, e, f) w'
          ]
      | inr (inl (x, e)) ↦ rw (open_file, e) w
      | inr (inr e) ↦ rw (open_file, e) w
    ]

write_entry-kind :
    (now : ℕ) (path : Text) (append : Bool) (offset : ℕ) (bytes : Bytes) (old entry : KvEntry)
    → write_entry now path append offset bytes old ≡ ok entry
    → is_dir entry ≡ is_dir old
unfolding write_entry
write_entry-kind now path append offset bytes (dir mode mtime) entry e = cc
write_entry-kind now path append offset bytes (file old mode mtime) entry e =
    outcome (ltb (write_offset + length bytes) (2 ^ 64))
      (file (write_content write_offset bytes old) mode now) refl e
  where
    write_offset : ℕ
    write_offset = if append then length old else offset

    outcome :
        (fits : Bool) (x : KvEntry)
        → is_dir x ≡ false
        → (if fits then ok x else panic) ≡ ok entry
        → is_dir entry ≡ false
    outcome true x k h = cc
    outcome false x k h = cc

write-IsStore :
    (now : ℕ) (handle : Handle) (offset : ℕ) (bytes : Bytes) (m : KvProvider)
    → IsStore m.store
    → IsStore (write now handle offset bytes m).0.store
unfolding write
write-IsStore now handle offset bytes m w = elim (Option-cases (get m.handles handle)) [
  | inl h ↦ rw (write, h) w
  | inr ((path, flags), h) ↦ elim (Option-cases (get m.store path)) [
    | inl g ↦ rw (write, h, g) w
    | inr (old, g) ↦ elim (FsResult-cases (write_entry now path flags.append offset bytes old)) [
      | inl (entry, e) ↦
          rw (write, h, g, e)
            (put-IsStore m.store path old entry w g
              (write_entry-kind now path flags.append offset bytes old entry e))
      | inr (inl (x, e)) ↦ rw (write, h, g, e) w
      | inr (inr e) ↦ rw (write, h, g, e) w
    ]
  ]
]

changed-kind :
    (now : ℕ) (mode size : Option ℕ) (old : KvEntry)
    → is_dir (changed now mode size old) ≡ is_dir old
unfolding changed
changed-kind now mode size (dir old mtime) = refl
changed-kind now mode size (file bytes old mtime) = refl

wstat-IsStore :
    (now : ℕ) (path : Text) (mode size : Option ℕ) (m : KvProvider)
    → IsStore m.store
    → IsStore (wstat now path mode size m).0.store
unfolding wstat
wstat-IsStore now path mode size m w = elim (Option-cases (get m.store (normalize_path path))) [
  | inl g ↦ rw (wstat, g) w
  | inr (old, g) ↦
      rw (wstat, g)
        (put-IsStore m.store (normalize_path path) old (changed now mode size old) w g
          (changed-kind now mode size old))
]

remove-IsStore : (path : Text) (m : KvProvider) → IsStore m.store → IsStore (remove path m).0.store
unfolding remove
remove-IsStore path m w =
    let p = normalize_path path in
    elim (Bool-cases (p == root)) [
      | inl r ↦ rw (remove, r) w
      | inr r ↦ elim (Bool-cases (has_children p m.store)) [
        | inl h ↦ rw (remove, r, h) w
        | inr h ↦ elim (Bool-cases (Map.contains_key m.store p)) [
          | inl c ↦ rw (remove, r, h, c) (remove_one-IsStore m.store p w r)
          | inr c ↦ rw (remove, r, h, c) w
        ]
      ]
    ]

-- The calls that change the provider.
pub data Call : Type 0 where
  opens : ℕ → Text → OpenFlags → Call
  writes : ℕ → Handle → ℕ → Bytes → Call
  closes : Handle → Call
  removes : Text → Call
  changes : ℕ → Text → Option ℕ → Option ℕ → Call

abbrev pub step : Call → KvProvider → KvProvider
step (opens now path flags) m = (open_file now path flags m).0
step (writes now handle offset bytes) m = (write now handle offset bytes m).0
step (closes handle) m = (close handle m).0
step (removes path) m = (remove path m).0
step (changes now path mode size) m = (wstat now path mode size m).0

abbrev pub run : List Call → KvProvider → KvProvider
run [] m = m
run (call ∷ calls) m = run calls (step call m)

close-IsStore :
    (handle : Handle) (m : KvProvider) → IsStore m.store → IsStore (close handle m).0.store
unfolding close
close-IsStore handle m w = elim (Bool-cases (Map.contains_key m.handles handle)) [
  | inl h ↦ rw (close, h) w
  | inr h ↦ rw (close, h) w
]

step-IsStore : (call : Call) (m : KvProvider) → IsStore m.store → IsStore (step call m).store
step-IsStore (opens now path flags) m w = open-IsStore now path flags m w
step-IsStore (writes now handle offset bytes) m w = write-IsStore now handle offset bytes m w
step-IsStore (closes handle) m w = close-IsStore handle m w
step-IsStore (removes path) m w = remove-IsStore path m w
step-IsStore (changes now path mode size) m w = wstat-IsStore now path mode size m w

run-from : (calls : List Call) (m : KvProvider) → IsStore m.store → IsStore (run calls m).store
run-from [] m w = w
run-from (call ∷ calls) m w = run-from calls (step call m) (step-IsStore call m w)

-- After any calls on a new provider its store ascends by the keys and has a directory at the root.
pub run-IsStore : (now : ℕ) (calls : List Call) → IsStore (run calls (new now)).store
run-IsStore now calls = run-from calls (new now) (new-IsStore now)
