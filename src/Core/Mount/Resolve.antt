-- ===== src/Core/Mount/Resolve.antt =====
-- What `resolve` promises: the longest mount that covers a path, by whole components.
use fs.Base.{
  ltb, ◌≤◌, ◌≡◌, ◌≢◌, ◌↔◌, ◌⊎◌, sym, ap, ◌∙◌, true, false, Option, none, some, [], ◌∷◌, text_eq,
  inl, inr, Text, root, starts_with, length, arith, Option-cases, refl, if◌then◌else◌, nat_eq,
}
use fs.Base.Map.{Map, get}
use fs.Base.Order.{IsSorted, text_lt-total, length-le_of_prefixes, text_lt, text_lt-prefix, Above}
use fs.Sdk.Error.{FsResult, ok, err, not_found}
use fs.Base.Whitespace.{trim}
use fs.Core.Paths.Normal.{is_normal, normalize-IsNormal}
use fs.Core.Mount.{
  ProviderId, MountEntry, MountTable, normalize_mount_path, range_rev, resolve_loop, resolve,
}
use fs.Core.Mount.Best.{
  resolve_at-covers, covers, relative, best, IsBest, best-IsBest, best-none, resolve_loop-range_rev,
  covers-starts,
}

starts_of_normal : (p : Text) → is_normal p ≡ true → starts_with p root ≡ true
unfolding starts_with
starts_of_normal [] h = cc
starts_of_normal (c ∷ []) h = ground arith
starts_of_normal (c ∷ d ∷ p) h = ground arith

pub normal-starts :
    (path : Text)
    → normalize_mount_path path ≢ []
    → starts_with (normalize_mount_path path) root ≡ true
unfolding normalize_mount_path
normal-starts path n = starts_of_normal _ (normalize-IsNormal (trim path) n)

-- The mount at `key` covers `path`, none that covers it is longer, and `rel` is the rest.
pub record IsLongest (t : MountTable) (path : Text) (p : ProviderId) (rel : Text) : Type 0 where
  pub key : Text
  pub entry : MountEntry
  pub mounted : get t.mounts key ≡ some entry
  pub covering : covers key path ≡ true
  pub provider : p ≡ entry.provider
  pub rest : rel ≡ relative key path
  pub longest :
      (j : Text) (f : MountEntry)
      → get t.mounts j ≡ some f
      → covers j path ≡ true
      → length j ≤ length key

IsLongest-of_best :
    (t : MountTable) (path : Text) (p : ProviderId) (rel : Text)
    → starts_with path root ≡ true
    → IsBest path t.mounts (p, rel)
    → IsLongest t path p rel
IsLongest-of_best t path p rel lead b = record {
  key = b.key;
  entry = b.entry;
  mounted = b.mounted;
  covering = b.covering;
  provider = ap (λ r. r.0) b.answer;
  rest = ap (λ r. r.1) b.answer;
  longest = λ j f g c. elim (text_eq.dec j b.key) [
    | yes e ↦ rw e (omega arith)
    | no n ↦
        length-le_of_prefixes path j b.key (covers-starts path lead j c)
          (covers-starts path lead b.key b.covering)
          (text_lt-total b.key j (b.last j f g c) (λ e. n (sym e)))
  ];
}

resolve_loop-best :
    (p : Text) (m : Map Text MountEntry) → resolve_loop p (range_rev m p []) ≡ best p m
unfolding resolve_loop
resolve_loop-best p m = resolve_loop-range_rev p m [] ∙ ground arith

root-covers : (p : Text) → covers root p ≡ true
unfolding covers
root-covers p = ground arith

abbrev of_best : Text → Option (ProviderId × Text) → FsResult (ProviderId × Text)
of_best path none = err (not_found path)
of_best path (some r) = ok r

-- The last resort of `resolve`, the mount at the root, is never needed.
resolve-best :
    (path : Text) (t : MountTable)
    → normalize_mount_path path ≢ []
    → resolve path t
      ≡ of_best (normalize_mount_path path) (best (normalize_mount_path path) t.mounts)
unfolding resolve
resolve-best path t n =
    let p = normalize_mount_path path in
    elim (Option-cases (best p t.mounts)) [
      | inr (r, q) ↦ ground (arith, resolve_loop-best p t.mounts)
      | inl q ↦ elim (Option-cases (get t.mounts root)) [
        | inl g ↦ ground (arith, resolve_loop-best p t.mounts)
        | inr (e, g) ↦
            absurd (
              ground (arith, best-none p (normal-starts path n) t.mounts q root e g, root-covers p))
      ]
    ]

-- The reference: the longest mount that covers the path, found by trying every mount.
pub longer : Text × MountEntry → Option (Text × MountEntry) → Text × MountEntry
longer (k, e) none = (k, e)
longer (k, e) (some (j, f)) = if ltb (length j) (length k) then (k, e) else (j, f)

pub longest_mount : Text → Map Text MountEntry → Option (Text × MountEntry)
unfolding longer
longest_mount path [] = none
longest_mount path ((k, e) ∷ m) =
    let rest = longest_mount path m in if covers k path then some (longer (k, e) rest) else rest

abbrev pub answer : Text → Option (Text × MountEntry) → FsResult (ProviderId × Text)
answer path none = err (not_found path)
answer path (some (k, e)) = ok (e.provider, relative k path)

-- The hit is the first entry, or the hit of the rest.
longest_mount-cases :
    (p i : Text) (w : MountEntry) (m : Map Text MountEntry) (k : Text) (e : MountEntry)
    → longest_mount p ((i, w) ∷ m) ≡ some (k, e)
    → (covers i p ≡ true) × (i ≡ k) ⊎ (longest_mount p m ≡ some (k, e))
unfolding longest_mount
longest_mount-cases p i w m k e h = elim (Option-cases (longest_mount p m)) [
  | inl q ↦ ground arith
  | inr ((j, f), q) ↦ ground arith
]

longest_mount-covers :
    (p : Text) (m : Map Text MountEntry) (k : Text) (e : MountEntry)
    → longest_mount p m ≡ some (k, e)
    → covers k p ≡ true
unfolding longest_mount
longest_mount-covers p [] k e h = cc
longest_mount-covers p ((i, w) ∷ m) k e h = elim (longest_mount-cases p i w m k e h) [
  | inl (c, q) ↦ cc
  | inr q ↦ longest_mount-covers p m k e q
]

longest_mount-Above :
    (p : Text) (m : Map Text MountEntry) (k j : Text) (e : MountEntry)
    → Above j m
    → longest_mount p m ≡ some (k, e)
    → text_lt j k ≡ true
unfolding longest_mount
longest_mount-Above p [] k j e a h = cc
longest_mount-Above p ((i, w) ∷ m) k j e (a, b) h = elim (longest_mount-cases p i w m k e h) [
  | inl (c, q) ↦ cc
  | inr q ↦ longest_mount-Above p m k j e b q
]

best-longest_mount :
    (p : Text) (m : Map Text MountEntry)
    → starts_with p root ≡ true
    → IsSorted m
    → of_best p (best p m) ≡ answer p (longest_mount p m)
unfolding longest_mount best
best-longest_mount p [] l s = refl
best-longest_mount p ((k, e) ∷ m) l (a, s) = elim (Option-cases (longest_mount p m)) [
  | inl q ↦ ground (
    arith,
    best-longest_mount p m l s,
    resolve_at-covers p k e,
    covers-starts p l k,
    text_lt-prefix p k,
  )
  | inr ((j, f), q) ↦
      let c = longest_mount-covers p m j f q in
      let b = longest_mount-Above p m j k f a q in
      ground (
        arith,
        best-longest_mount p m l s,
        resolve_at-covers p k e,
        covers-starts p l k,
        text_lt-prefix p k,
        length-le_of_prefixes p k j,
        covers-starts p l j c,
      )
]

-- On a path that normalizes to some text, as all do but runs of two or more slashes in white space,
-- `resolve` over a sorted table answers for the longest mount that covers the normalized path, with the rest of the path, and fails with
-- `not_found` when no mount covers it.
pub resolve-longest_mount :
    (path : Text) (t : MountTable)
    → IsSorted t.mounts
    → normalize_mount_path path ≢ []
    → resolve path t
      ≡ answer (normalize_mount_path path) (longest_mount (normalize_mount_path path) t.mounts)
resolve-longest_mount path t s n =
    resolve-best path t n
    ∙ best-longest_mount (normalize_mount_path path) t.mounts (normal-starts path n) s

-- On a path that is not a run of two or more slashes, a provider that `resolve` returns belongs to
-- the longest mount that covers the normalized path, and comes with the rest of the path.
pub resolve-IsLongest :
    (path : Text) (t : MountTable) {p : ProviderId} {rel : Text}
    → IsSorted t.mounts
    → normalize_mount_path path ≢ []
    → resolve path t ≡ ok (p, rel)
    → IsLongest t (normalize_mount_path path) p rel
resolve-IsLongest path t {p} {rel} s n h =
    let q = normalize_mount_path path in
    let lead = normal-starts path n in
    IsLongest-of_best t q p rel lead
      (best-IsBest q lead t.mounts s (found (best q t.mounts) (sym (resolve-best path t n) ∙ h)))
  where
    found :
        (b : Option (ProviderId × Text))
        → of_best (normalize_mount_path path) b ≡ ok (p, rel)
        → b ≡ some (p, rel)
    found none e = cc
    found (some r) e = cc

-- On such a path `resolve` fails exactly when no mount covers it.
pub resolve_fails_iff :
    (path : Text) (t : MountTable)
    → IsSorted t.mounts
    → normalize_mount_path path ≢ []
    → (resolve path t ≡ err (not_found (normalize_mount_path path))) ↔ (
        (j : Text) (f : MountEntry)
        → get t.mounts j ≡ some f
        → covers j (normalize_mount_path path) ≡ false)
resolve_fails_iff path t s n =
    let q = normalize_mount_path path in
    let lead = normal-starts path n in
    elim (Option-cases (best q t.mounts)) [
      | inl e ↦ (λ h. best-none q lead t.mounts e, λ h. resolve-best path t n ∙ ap (of_best q) e)
      | inr (r, e) ↦
          let b = best-IsBest q lead t.mounts s e in
          (
            λ h. absurd (cc (h, resolve-best path t n, e)),
            λ h. absurd (cc (h b.key b.entry b.mounted, b.covering)),
          )
    ]

pub resolve-cases :
    (path : Text) (t : MountTable)
    → (resolve path t ≡ err (not_found (normalize_mount_path path)))
      ⊎ ((r : ProviderId × Text) × (resolve path t ≡ ok r))
unfolding resolve
resolve-cases path t = elim (Option-cases (resolve_loop q (range_rev t.mounts q []))) [
  | inr (r, e) ↦ inr (r, ground arith)
  | inl e ↦ elim (Option-cases (get t.mounts root)) [
    | inr (f, g) ↦ inr ((f.provider, q), ground arith)
    | inl g ↦ inl (ground arith)
  ]
]
  where
    q : Text
    q = normalize_mount_path path
