-- ===== src/Core/MemFs/Bytes.antt =====
-- What `read` and `write` of `MemoryFs` do to the bytes of one file.
use fs.Base.{
  ℕ, ◌+◌, ◌-◌, ◌^◌, ◌≤◌, ◌<◌, min, max, ◌≡◌, refl, ap, ◌∙◌, inl, inr, ◌++◌, arith, ltb,
  if◌then◌else◌, nat_eq, lt→ltb, Bool-cases, length, get_or, drop, slice, resize, length-append,
  length-resize, length-overwrite, length-take, length-drop, get_or-overwrite, get_or_past,
  get_or-resize, get_or-take, get_or-drop, get_or-append, eq_of_get_or, text_eq,
}
use fs.Sdk.Error.{ok}
use fs.Sdk.Provider.{Bytes}
use fs.Core.MemFs.Io.{read_content, write_content}

abbrev pub byte : Bytes → ℕ → ℕ
byte content i = get_or content i 0

grown :
    (content : Bytes) (n i : ℕ)
    → byte (if ltb (length content) n then resize content n 0 else content) i ≡ byte content i
grown content n i = elim (Bool-cases (ltb (length content) n)) [
  | inl e ↦ rw e (get_or-resize content n i 0 ∙ ground (arith, get_or_past content i 0))
  | inr e ↦ rw e refl
]

length-grown :
    (content : Bytes) (n : ℕ)
    → length (if ltb (length content) n then resize content n 0 else content)
      ≡ max (length content) n
length-grown content n = elim (Bool-cases (ltb (length content) n)) [
  | inl e ↦ rw e (length-resize content n 0 ∙ ground arith)
  | inr e ↦ rw e (ground arith)
]

pub length-write_content :
    (offset : ℕ) (bytes content : Bytes)
    → length (write_content offset bytes content) ≡ max (length content) (offset + length bytes)
unfolding write_content
length-write_content offset bytes content =
    length-overwrite _ offset bytes ∙ length-grown content (offset + length bytes)

-- After a write every byte is the written one in the range, and the old one outside; a gap reads 0.
pub byte-write_content :
    (offset : ℕ) (bytes content : Bytes) (i : ℕ)
    → byte (write_content offset bytes content) i ≡ (
        if ltb i offset
        then byte content i
        else if ltb (i - offset) (length bytes)
        then byte bytes (i - offset)
        else byte content i)
unfolding write_content
byte-write_content offset bytes content i =
    let grew =
      if ltb (length content) (offset + length bytes)
      then resize content (offset + length bytes) 0
      else content in
    get_or-overwrite grew offset bytes i 0
      (omega (arith, length-grown content (offset + length bytes)))
    ∙ ground (arith, grown content (offset + length bytes) i)

pub byte-slice :
    (start end i : ℕ) (content : Bytes)
    → byte (slice start end content) i
      ≡ (if ltb i (end - start) then byte content (start + i) else 0)
byte-slice start end i content =
    get_or-take (end - start) (drop start content) i 0
    ∙ ground (arith, get_or-drop start content i 0)

-- A read inside the file is the slice that was asked for.
read_content_within :
    (offset size : ℕ) (content : Bytes)
    → offset + size ≤ length content
    → offset + size < 2 ^ 64
    → read_content offset size content ≡ ok (slice offset (offset + size) content)
unfolding read_content
read_content_within offset size content h q =
    let start : min offset (length content) ≡ offset = omega arith in
    let end : min (offset + size) (length content) ≡ offset + size = omega arith in
    rw (start, end, lt→ltb (offset + size) (2 ^ 64) q)

slice-write_content :
    (offset : ℕ) (bytes content : Bytes)
    → slice offset (offset + length bytes) (write_content offset bytes content) ≡ bytes
slice-write_content offset bytes content = eq_of_get_or _ bytes 0 long (λ i q.
    byte-slice offset (offset + length bytes) i after
    ∙ ground (arith, long, byte-write_content offset bytes content (offset + i), shift i))
  where
    after : Bytes
    after = write_content offset bytes content

    long : length (slice offset (offset + length bytes) after) ≡ length bytes
    long =
        length-take _ _
        ∙ omega (arith, length-drop offset after, length-write_content offset bytes content)

    shift : (i : ℕ) → byte bytes (offset + i - offset) ≡ byte bytes i
    shift i = ap (byte bytes) (omega arith)

-- What was written is read back, at any offset that does not overflow.
pub read_content-write_content :
    (offset : ℕ) (bytes content : Bytes)
    → offset + length bytes < 2 ^ 64
    → read_content offset (length bytes) (write_content offset bytes content) ≡ ok bytes
read_content-write_content offset bytes content h =
    read_content_within offset (length bytes) _
      (omega (arith, length-write_content offset bytes content)) h
    ∙ ap ok (slice-write_content offset bytes content)

-- A write at the end of the file appends.
pub write_content_end :
    (bytes content : Bytes) → write_content (length content) bytes content ≡ content ++ bytes
write_content_end bytes content =
    eq_of_get_or _ _ 0
      (length-write_content (length content) bytes content
        ∙ omega (arith, length-append content bytes))
      (λ i q.
        byte-write_content (length content) bytes content i
        ∙ ground (
          arith,
          get_or-append content bytes i 0,
          get_or_past content i 0,
          get_or_past bytes (i - length content) 0,
        ))
