-- ===== src/Plugins/PubSubFs/Drains.antt =====
-- The buffer of a subscriber in plugins/pubsubfs/src/lib.rs, of which a read far behind its start drops
-- the front, and what a read answers from it.
use mathlib.Core.List.{append_assoc}
use fs.Base.{
  ℕ, zero, suc, ◌+◌, ◌-◌, ◌%◌, ◌^◌, ◌≤◌, ◌<◌, min, ◌≡◌, refl, sym, ap, ◌∙◌, ◌⊎◌, inl, inr, [], ◌++◌,
  false, ◌&&◌, arith, ltb, ltb→lt, le→ltb, nat_eq, Bool-cases, length, take, drop, length-append,
  length-take, length-drop, drop_all,
}
use fs.Base.Cuts.{take-drop, drop-behind, take-min}
use fs.Sdk.Error.{ok, FsResult-cases}
use fs.Sdk.Provider.{Bytes}
use fs.Plugins.Channel.{Broadcast}
use fs.Plugins.StreamFs.Calls.{slice_at}
use fs.Plugins.PubSubFs.Topic.{Message}
use fs.Plugins.PubSubFs.Provider.{Subscription}
use fs.Plugins.PubSubFs.Calls.{answer_read, mebibyte, window}

take-nil : (n : ℕ) → take {A = ℕ} n [] ≡ []
take-nil zero = refl
take-nil (suc n) = refl

slice_at-inside :
    (start size : ℕ) (bytes : Bytes)
    → start < length bytes
    → start + size < 2 ^ 64
    → slice_at start size bytes ≡ ok (take size (drop start bytes))
unfolding slice_at
slice_at-inside start size bytes h f =
    let no_wrap : (start + size) % 2 ^ 64 ≡ start + size = omega arith in
    let ahead : ltb (min (start + size) (length bytes)) start ≡ false =
      le→ltb start _ (omega arith) in
    let long : min (start + size) (length bytes) - start ≡ min size (length (drop start bytes)) =
      omega (arith, length-drop start bytes) in
    rw (slice_at, no_wrap, ahead, long) (ap ok (take-min size (drop start bytes)))

module _ (B : Broadcast Message) where
  -- The buffer is the text without what was dropped, of which the offset has the length.
  pub record Kept (text : Bytes) (s : Subscription B) : Type 0 where
    pub gone : Bytes
    pub base : s.buffer_offset ≡ length gone % 2 ^ 64
    pub whole : gone ++ s.buffer ≡ text

  -- The subscription with `n` bytes fewer at the front.
  abbrev pub drained : ℕ → Subscription B → Subscription B
  drained n s = record s {
    buffer = drop n s.buffer;
    buffer_offset = (s.buffer_offset + n) % 2 ^ 64;
  }

  -- A read drops nothing, or bytes that the buffer has.
  pub answer_read-drained :
      (offset size : ℕ) (s : Subscription B)
      → ((answer_read B offset size s).0 ≡ s)
        ⊎ ((n : ℕ) × (n ≤ length s.buffer) × ((answer_read B offset size s).0 ≡ drained n s))
  unfolding answer_read
  answer_read-drained offset size s =
      let rel = offset - s.buffer_offset in
      elim (Bool-cases (ltb rel (length s.buffer))) [
        | inr e ↦ inl (rw (answer_read, e) refl)
        | inl e ↦ elim (FsResult-cases (slice_at rel size s.buffer)) [
          | inl (bytes, f) ↦ elim (Bool-cases (ltb mebibyte (length s.buffer) && ltb window rel)) [
            | inl g ↦
                inr (rel - window, omega (arith, ltb→lt _ _ e), rw (answer_read, e, f, g) refl)
            | inr g ↦ inl (rw (answer_read, e, f, g) refl)
          ]
          | inr (inl (x, f)) ↦ inl (rw (answer_read, e, f) refl)
          | inr (inr f) ↦ inl (rw (answer_read, e, f) refl)
        ]
      ]

  pub drained-Kept :
      (text : Bytes) (n : ℕ) (s : Subscription B)
      → n ≤ length s.buffer
      → Kept text s
      → Kept text (drained n s)
  drained-Kept text n s h k = record {
    gone = k.gone ++ take n s.buffer;
    base = omega (arith, k.base, length-append k.gone (take n s.buffer), length-take n s.buffer);
    whole =
        append_assoc k.gone (take n s.buffer) (drop n s.buffer)
        ∙ ap (λ bytes. k.gone ++ bytes) (take-drop n s.buffer)
        ∙ k.whole;
  }

  -- A read from what was not dropped on answers with the text from the offset on.
  pub answer_read-text :
      (text : Bytes) (offset size : ℕ) (s : Subscription B)
      → Kept text s
      → length text < 2 ^ 64
      → offset + size < 2 ^ 64
      → s.buffer_offset ≤ offset
      → (answer_read B offset size s).1 ≡ ok (take size (drop offset text))
  unfolding answer_read
  answer_read-text text offset size s k b f l =
      let rel = offset - s.buffer_offset in
      elim (Bool-cases (ltb rel (length s.buffer))) [
        | inl e ↦
            let inside = slice_at-inside rel size s.buffer (ltb→lt _ _ e) (omega arith) in
            rw (answer_read, e, inside) (ap (λ bytes. ok (take size bytes)) rest)
        | inr e ↦
            let past : drop rel s.buffer ≡ [] = drop_all rel s.buffer (ground arith) in
            rw (answer_read, e)
              (ap ok (sym (take-nil size) ∙ ap (take size) (sym past) ∙ ap (take size) rest))
      ]
    where
      long : length k.gone + length s.buffer ≡ length text
      long = sym (length-append k.gone s.buffer) ∙ ap length k.whole

      start : offset ≡ offset - s.buffer_offset + length k.gone
      start = omega (arith, k.base, long)

      rest : drop (offset - s.buffer_offset) s.buffer ≡ drop offset text
      rest =
          sym (drop-behind k.gone s.buffer (offset - s.buffer_offset))
          ∙ ap (λ n. drop n (k.gone ++ s.buffer)) (sym start)
          ∙ ap (drop offset) k.whole
