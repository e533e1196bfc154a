-- ===== src/Core/Paths/Normal.antt =====
-- What `normalize_path` returns: a path that it leaves alone, except on `//` and longer runs.
use fs.Base.{
  ℕ, zero, suc, ◌<◌, ◌≡◌, ◌≢◌, refl, ap, ◌∙◌, ◌⊎◌, inl, inr, Bool, true, false, ◌&&◌, not, [], ◌∷◌,
  eqb, Text, slash, root, starts_with, ends_with, replicate, trim_end_matches, utf8_len, arith,
}
use fs.Core.Paths.{with_slash, trim_slashes, normalize_path}

-- A path in normal form: the root, or one that begins with `/` and does not end with it.
abbrev pub is_normal : Text → Bool
is_normal [] = false
is_normal (c ∷ []) = eqb c slash
is_normal (c ∷ d ∷ p) = eqb c slash && not (ends_with (d ∷ p) slash)

with_slash-starts : (p : Text) → starts_with (with_slash p) root ≡ true
unfolding with_slash
with_slash-starts [] = refl
with_slash-starts (c ∷ p) = ground arith

with_slash_of_normal : (p : Text) → is_normal p ≡ true → with_slash p ≡ p
unfolding with_slash
with_slash_of_normal [] h = ground arith
with_slash_of_normal (c ∷ []) h = ground arith
with_slash_of_normal (c ∷ d ∷ p) h = ground arith

trim_slashes_of_normal : (p : Text) → is_normal p ≡ true → trim_slashes p ≡ p
unfolding trim_slashes
trim_slashes_of_normal [] h = ground arith
trim_slashes_of_normal (c ∷ []) h = ground arith
trim_slashes_of_normal (c ∷ d ∷ p) h = ground arith

-- A path in normal form is left alone.
pub normalize_of_normal : (p : Text) → is_normal p ≡ true → normalize_path p ≡ p
unfolding normalize_path
normalize_of_normal p h = ap trim_slashes (with_slash_of_normal p h) ∙ trim_slashes_of_normal p h

ends_with-trim_end : (s : Text) (c : ℕ) → ends_with (trim_end_matches s c) c ≡ false
unfolding ends_with trim_end_matches
ends_with-trim_end [] c = refl
ends_with-trim_end (d ∷ s) c = ground (arith, ends_with-trim_end s c)

-- Trimming keeps the head, or leaves nothing.
trim_end-head :
    (d : ℕ) (s : Text) (c : ℕ)
    → (trim_end_matches (d ∷ s) c ≡ []) ⊎ (trim_end_matches (d ∷ s) c ≡ d ∷ trim_end_matches s c)
unfolding trim_end_matches
trim_end-head d s c = ground arith

normal_of_parts :
    (p : Text) → starts_with p root ≡ true → ends_with p slash ≡ false → is_normal p ≡ true
unfolding starts_with ends_with
normal_of_parts [] s e = s
normal_of_parts (c ∷ []) s e = ground arith
normal_of_parts (c ∷ d ∷ p) s e = ground arith

utf8_len-pos : (c : ℕ) (s : Text) → 0 < utf8_len (c ∷ s)
unfolding utf8_len
utf8_len-pos c s = ground arith

trim_end-IsNormal :
    (c d : ℕ) (p : Text)
    → starts_with (c ∷ d ∷ p) root ≡ true
    → trim_end_matches (c ∷ d ∷ p) slash ≢ []
    → is_normal (trim_end_matches (c ∷ d ∷ p) slash) ≡ true
trim_end-IsNormal c d p s n = elim (trim_end-head c (d ∷ p) slash) [
  | inl e ↦ absurd (n e)
  | inr e ↦
      normal_of_parts _ (rw e (unfold starts_with in s)) (ends_with-trim_end (c ∷ d ∷ p) slash)
]

trim_slashes-IsNormal :
    (p : Text) → starts_with p root ≡ true → trim_slashes p ≢ [] → is_normal (trim_slashes p) ≡ true
unfolding trim_slashes starts_with
trim_slashes-IsNormal [] s n = absurd (n refl)
trim_slashes-IsNormal (c ∷ []) s n = ground arith
trim_slashes-IsNormal (c ∷ d ∷ p) s n =
    ground (arith, utf8_len-pos d p, trim_end-IsNormal c d p, normal_of_parts (c ∷ d ∷ p))

pub normalize-IsNormal : (p : Text) → normalize_path p ≢ [] → is_normal (normalize_path p) ≡ true
unfolding normalize_path
normalize-IsNormal p n = trim_slashes-IsNormal (with_slash p) (with_slash-starts p) n

trim_replicate : (n : ℕ) → trim_end_matches (replicate n slash) slash ≡ []
unfolding trim_end_matches
trim_replicate zero = refl
trim_replicate (suc n) = rw (trim_replicate n)

ends_with-replicate : (n : ℕ) → ends_with (replicate (suc n) slash) slash ≡ true
unfolding ends_with
ends_with-replicate zero = refl
ends_with-replicate (suc n) = ends_with-replicate n

-- Two or more slashes, and nothing else, become the empty text.
pub normalize_slashes : (n : ℕ) → normalize_path (replicate (suc (suc n)) slash) ≡ []
unfolding normalize_path
normalize_slashes n = ground (
  arith,
  ends_with-replicate (suc n),
  trim_replicate (suc (suc n)),
  utf8_len-pos slash (replicate n slash),
)
