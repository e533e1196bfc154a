-- ===== src/Plugins/StreamFs/Ring.antt =====
-- What the ring of a stream of plugins/streamfs/src/lib.rs holds: the last chunks of its history.
use mathlib.Core.Path.{subst}
use native.Mathlib.Decide.{ℕ_discrete}
use native.Mathlib.Nat.{mod-lt, mod-add-mod, mod-eq-sub-mod, mod-eq_of_lt}
use fs.Base.{
  ℕ, zero, suc, ◌+◌, ◌-◌, ◌%◌, ◌^◌, ◌≤◌, ◌<◌, max, ◌≡◌, ◌≢◌, refl, ap, ◌∙◌, sym, inl, inr, false,
  List, [], ◌∷◌, ◌++◌, arith, ltb, eqb, nat_eq, Bool-cases, length, get_or, drop, length-append,
  length-set, get_or-append, get_or-set, ltb→lt, lt→ltb, same→eqb, ne→eqb, le→ltb, Text,
  length-replicate, drop_all, drop-get_or, replicate, Bool, true, if◌then◌else◌,
}
use fs.Sdk.Error.{ok, panic}
use fs.Sdk.Provider.{Bytes}
use fs.Plugins.Channel.{Broadcast}
use fs.Plugins.StreamFs.Stream
use fs.Plugins.StreamFs.Stream.{is_empty_chunk, chunks_from, StreamFile, get_historical_chunks}

-- Numbers less than `r` apart share no place of the ring.
mod-apart : (i k r : ℕ) → 0 < k → k < r → (i + k) % r ≢ i % r
mod-apart i k r h l e = elim (Bool-cases (ltb (i % r + k) r)) [
  | inl q ↦
      let small : (i % r + k) % r ≡ i % r + k = mod-eq_of_lt (ltb→lt (i % r + k) r q) in
      absurd (omega (arith, small, shifted))
  | inr q ↦
      let large : r ≤ i % r + k = ground arith in
      let less : i % r + k - r < r = omega (arith, below) in
      let wrapped : (i % r + k) % r ≡ (i % r + k - r) % r = mod-eq-sub-mod large in
      let small : (i % r + k - r) % r ≡ i % r + k - r = mod-eq_of_lt less in
      absurd (omega (arith, wrapped, small, shifted, below))
]
  where
    below : i % r < r
    below = mod-lt i (omega arith)

    shifted : (i % r + k) % r ≡ i % r
    shifted = mod-add-mod i r k ∙ e

-- The chunks from number `i` on, as long as the ring holds them.
chunks_from-drop :
    (n i r : ℕ) (ring history : List Bytes)
    → i + n ≡ length history
    → ((j : ℕ) → i ≤ j → j < length history → get_or ring (j % r) [] ≡ get_or history j [])
    → ((j : ℕ) → j < length history → is_empty_chunk (get_or history j []) ≡ false)
    → chunks_from n i r ring ≡ drop i history
unfolding chunks_from
chunks_from-drop zero i r ring history e h c = sym (drop_all i history (omega arith))
chunks_from-drop (suc n) i r ring history e h c =
    let here : get_or ring (i % r) [] ≡ get_or history i [] = h i (omega arith) (omega arith) in
    let full : is_empty_chunk (get_or history i []) ≡ false = c i (omega arith) in
    rw (here, full)
      (ap (λ rest. get_or history i [] ∷ rest)
          (chunks_from-drop n (i + 1) r ring history (omega arith) (λ j p q. h j (omega arith) q) c)
        ∙ ap (λ k. get_or history i [] ∷ drop k history) {y = suc i} (omega arith)
        ∙ sym (drop-get_or i history [] (omega arith)))

not_empty : (chunk : Bytes) → is_empty_chunk chunk ≡ false → eqb (length chunk) 0 ≡ false
not_empty [] h = cc
not_empty (b ∷ chunk) h = ground arith

module _ (B : Broadcast Bytes) where
  -- The stream after `history`: its chunks in the order of the writes.
  pub record Holds (f : StreamFile B) (history : List Bytes) : Type 0 where
    pub ring_length : length f.ring_buffer ≡ f.ring_size
    pub some_room : 0 < f.ring_size
    pub index : f.write_index ≡ length history
    pub total : f.total_chunks ≡ length history
    pub kept :
        (j : ℕ)
        → j < length history
        → length history ≤ j + f.ring_size
        → get_or f.ring_buffer (j % f.ring_size) [] ≡ get_or history j []
    pub chunks : (j : ℕ) → j < length history → is_empty_chunk (get_or history j []) ≡ false

  pub new-Holds :
      (now : ℕ) (name : Text) (ring_size channel_size : ℕ) (f : StreamFile B)
      → Stream.new B now name ring_size channel_size ≡ ok f
      → 0 < ring_size
      → Holds f []
  unfolding Stream.new
  new-Holds now name ring_size channel_size f e h = made (eqb channel_size 0) e
    where
      fresh : StreamFile B
      fresh = record {
        name = name;
        total_written = 0;
        closed = false;
        mtime = now;
        ring_buffer = replicate ring_size [];
        ring_size = ring_size;
        write_index = 0;
        total_chunks = 0;
        sender = B.channel channel_size;
        readers = [];
        next_reader_id = 1;
      }

      made : (none : Bool) → (if none then panic else ok fresh) ≡ ok f → Holds f []
      made true e = cc
      made false e =
          let same : fresh ≡ f = cc in
          subst (λ g. Holds g []) same
            (record {
              ring_length = length-replicate ring_size [];
              some_room = h;
              index = refl;
              total = refl;
              kept = λ j p q. absurd (omega arith);
              chunks = λ j p. absurd (omega arith);
            })

  -- A write of a chunk, which is not empty, to an open stream with less than 2 ^ 64 - 1 chunks
  -- succeeds and is the next chunk of its history.
  pub write-Holds :
      (now : ℕ) (chunk : Bytes) (f : StreamFile B) (history : List Bytes)
      → Holds f history
      → f.closed ≡ false
      → is_empty_chunk chunk ≡ false
      → length history + 1 < 2 ^ 64
      → ((Stream.write B now chunk f).1 ≡ ok (length chunk))
        × Holds (Stream.write B now chunk f).0 (history ++ chunk ∷ [])
  unfolding Stream.write
  write-Holds now chunk f history w o c b =
      rw (Stream.write, o, full, room)
        (
          refl,
          record {
            ring_length =
                length-set f.ring_buffer (f.write_index % f.ring_size) chunk ∙ w.ring_length;
            some_room = w.some_room;
            index = omega (arith, w.index, long);
            total = omega (arith, w.total, long);
            kept = λ j p q.
                get_or-set f.ring_buffer (f.write_index % f.ring_size) chunk (j % f.ring_size) []
                  place
                ∙ elim (ℕ_discrete j (length history)) [
                  | yes e ↦
                      let here : f.write_index % f.ring_size ≡ j % f.ring_size =
                        ap (λ k. k % f.ring_size) (w.index ∙ sym e) in
                      rw (same→eqb _ _ here) (sym (last_chunk j e))
                  | no e ↦
                      let before : j < length history = omega (arith, p, long) in
                      rw (ne→eqb _ _ (λ d. apart j before (omega (arith, q, long)) (sym d)))
                        (w.kept j before (omega (arith, q, long)) ∙ sym (old_chunk j before))
                ];
            chunks = λ j p. elim (ℕ_discrete j (length history)) [
              | yes e ↦ rw (last_chunk j e) c
              | no e ↦
                  let before : j < length history = omega (arith, p, long) in
                  rw (old_chunk j before) (w.chunks j before)
            ];
          },
        )
    where
      place : f.write_index % f.ring_size < length f.ring_buffer
      place = omega (arith, w.ring_length, mod-lt f.write_index w.some_room)

      last_chunk : (j : ℕ) → j ≡ length history → get_or (history ++ chunk ∷ []) j [] ≡ chunk
      last_chunk j e =
          let first : j - length history ≡ 0 = omega arith in
          get_or-append history (chunk ∷ []) j []
          ∙ rw (le→ltb (length history) j (omega arith), first) refl

      old_chunk :
          (j : ℕ) → j < length history → get_or (history ++ chunk ∷ []) j [] ≡ get_or history j []
      old_chunk j h =
          get_or-append history (chunk ∷ []) j [] ∙ rw (lt→ltb j (length history) h) refl

      apart :
          (j : ℕ)
          → j < length history
          → length history < j + f.ring_size
          → j % f.ring_size ≢ f.write_index % f.ring_size
      apart j h k d =
          let sum : f.write_index ≡ j + (length history - j) = omega (arith, w.index) in
          mod-apart j (length history - j) f.ring_size (omega arith) (omega arith)
            (ap (λ n. n % f.ring_size) (sym sum) ∙ sym d)

      full : eqb (length chunk) 0 ≡ false
      full = not_empty chunk c

      room : eqb f.ring_size 0 ≡ false
      room = ground (arith, w.some_room)

      long : length (history ++ chunk ∷ []) ≡ length history + 1
      long = length-append history (chunk ∷ []) ∙ omega arith

  pub write-sender :
      (now : ℕ) (chunk : Bytes) (f : StreamFile B)
      → f.closed ≡ false
      → is_empty_chunk chunk ≡ false
      → 0 < f.ring_size
      → ((Stream.write B now chunk f).0.sender ≡ B.send chunk f.sender)
        × ((Stream.write B now chunk f).0.ring_size ≡ f.ring_size)
  unfolding Stream.write
  write-sender now chunk f o c r =
      let full : eqb (length chunk) 0 ≡ false = not_empty chunk c in
      let room : eqb f.ring_size 0 ≡ false = ground arith in
      rw (Stream.write, o, full, room) (refl, refl)

  -- A stream that holds its history gives the chunks from an index on, or from the oldest that the
  -- ring still has.
  pub get_historical_chunks_lem :
      (from_index : ℕ) (f : StreamFile B) (history : List Bytes)
      → Holds f history
      → get_historical_chunks B from_index f
        ≡ drop (max from_index (length history - f.ring_size)) history
  unfolding get_historical_chunks chunks_from
  get_historical_chunks_lem from_index f history w =
      let start = max from_index (length history - f.ring_size) in
      rw (get_historical_chunks, w.total)
        (elim (Bool-cases (ltb (length history) start)) [
          | inl q ↦
              let none_left : length history - start ≡ 0 = omega (arith, ltb→lt _ _ q) in
              rw none_left (sym (drop_all start history (omega (arith, ltb→lt _ _ q))))
          | inr q ↦
              let inside : start ≤ length history = ground arith in
              chunks_from-drop (length history - start) start f.ring_size f.ring_buffer history
                (omega arith) (λ j p r. w.kept j r (omega arith)) w.chunks
        ])
