-- ===== src/Core/Mount/Best.antt =====
-- The loop of `resolve` walks down the keys; `best` walks up and keeps the last hit.
use fs.Base.{
  ◌≡◌, refl, ◌∙◌, Bool, true, false, ◌&&◌, ◌||◌, Option, none, some, [], ◌∷◌, ◌==◌, text_eq, inl,
  inr, if◌then◌else◌, Text, root, starts_with, strip, arith, Option-cases, eq→≡,
}
use fs.Base.Map.{Map, get}
use fs.Base.Order.{
  Above-get, text_lt, IsSorted, Above, text_lt_irrefl, text_lt_trans, text_lt-prefix,
}
use fs.Core.Mount.{ProviderId, MountEntry, range_rev, slash_next, resolve_at, resolve_loop}

-- `mount_path` is `path` itself, the root, or `path` goes on with a `/` after it.
unfoldable pub covers : Text → Text → Bool
covers mount_path path =
    path == mount_path
    || mount_path == root
    || (starts_with path mount_path && slash_next path mount_path)

-- What is left of `path` below `mount_path`.
unfoldable pub relative : Text → Text → Text
relative mount_path path =
    if path == mount_path then root else if mount_path == root then path else strip path mount_path

abbrev or_else :
    Option (ProviderId × Text) → Option (ProviderId × Text) → Option (ProviderId × Text)
or_else none b = b
or_else (some a) b = some a

unfoldable pub best : Text → Map Text MountEntry → Option (ProviderId × Text)
best p [] = none
best p ((k, e) ∷ m) = or_else (best p m) (if text_lt p k then none else resolve_at p k e)

pub resolve_loop-range_rev :
    (p : Text) (m acc : Map Text MountEntry)
    → resolve_loop p (range_rev m p acc) ≡ or_else (best p m) (resolve_loop p acc)
unfolding best range_rev resolve_loop
resolve_loop-range_rev p [] acc = refl
resolve_loop-range_rev p ((k, e) ∷ m) acc =
    resolve_loop-range_rev p m (if text_lt p k then acc else (k, e) ∷ acc) ∙ ground arith

starts_with_self : (p : Text) → starts_with p p ≡ true
unfolding starts_with
starts_with_self [] = refl
starts_with_self (c ∷ p) = ground (arith, starts_with_self p)

pub resolve_at-covers :
    (p k : Text) (e : MountEntry)
    → resolve_at p k e ≡ (if covers k p then some (e.provider, relative k p) else none)
unfolding resolve_at covers relative
resolve_at-covers p k e = ground arith

-- The mount at `k` answers for `p`, and no mount that covers `p` comes after it.
pub record IsBest (p : Text) (m : Map Text MountEntry) (r : ProviderId × Text) : Type 0 where
  pub key : Text
  pub entry : MountEntry
  pub mounted : get m key ≡ some entry
  pub covering : covers key p ≡ true
  pub answer : r ≡ (entry.provider, relative key p)
  pub last :
      (j : Text) (f : MountEntry) → get m j ≡ some f → covers j p ≡ true → text_lt key j ≡ false

module _ (p : Text) (lead : starts_with p root ≡ true) where
  pub covers-starts : (k : Text) → covers k p ≡ true → starts_with p k ≡ true
  unfolding covers
  covers-starts k h = ground (arith, starts_with_self p, lead, eq→≡ k root)

  pub best-none :
      (m : Map Text MountEntry)
      → best p m ≡ none
      → (j : Text) (f : MountEntry) → get m j ≡ some f
      → covers j p ≡ false
  unfolding best get
  best-none [] h j f g = cc
  best-none ((k, e) ∷ m) h j f g = ground (
    arith,
    best-none m (ground arith) j f,
    resolve_at-covers p k e,
    covers-starts j,
    text_lt-prefix p j,
  )

  -- No later key covers the path: this one answers.
  IsBest-here :
      (k : Text) (e : MountEntry) (m : Map Text MountEntry) (r : ProviderId × Text)
      → Above k m
      → best p m ≡ none
      → best p ((k, e) ∷ m) ≡ some r
      → IsBest p ((k, e) ∷ m) r
  unfolding best get
  IsBest-here k e m r a none_later h = record {
    key = k;
    entry = e;
    mounted = ground arith;
    covering = ground (arith, resolve_at-covers p k e);
    answer = ground (arith, resolve_at-covers p k e);
    last = λ j f g c. ground (arith, best-none m none_later j f, text_lt_irrefl k);
  }

  IsBest-later :
      (k : Text) (e : MountEntry) (m : Map Text MountEntry) (r : ProviderId × Text)
      → Above k m
      → IsBest p m r
      → IsBest p ((k, e) ∷ m) r
  unfolding get
  IsBest-later k e m r a b = record {
    key = b.key;
    entry = b.entry;
    mounted = ground (arith, after, text_lt_irrefl k, b.mounted);
    covering = b.covering;
    answer = b.answer;
    last = λ j f g c. ground (
      arith,
      b.last j f,
      text_lt_trans b.key k b.key,
      text_lt_irrefl b.key,
      after,
      text_lt_trans k b.key k,
      text_lt_irrefl k,
    );
  }
    where
      after : text_lt k b.key ≡ true
      after = Above-get k m b.key b.entry a b.mounted

  pub best-IsBest :
      (m : Map Text MountEntry) {r : ProviderId × Text}
      → IsSorted m
      → best p m ≡ some r
      → IsBest p m r
  unfolding best
  best-IsBest [] s h = absurd (cc)
  best-IsBest ((k, e) ∷ m) {r} (a, s) h = elim (Option-cases (best p m)) [
    | inl q ↦ IsBest-here k e m r a q h
    | inr (r', q) ↦ IsBest-later k e m r a (best-IsBest m s (ground arith))
  ]
