-- ===== src/Plugins/StreamFs/Late.antt =====
-- What a reader of a stream of plugins/streamfs/src/lib.rs gets, before and after its first read.
use mathlib.Core.List.{append-nil, append_assoc}
use fs.Base.{
  ℕ, ◌+◌, ◌-◌, ◌^◌, ◌<◌, ◌≤◌, max, ◌≡◌, refl, ap, ◌∙◌, sym, false, some, List, [], ◌∷◌, ◌++◌, arith,
  length, drop, Text, length-append,
}
use fs.Sdk.Types.{OpenFlags}
use fs.Sdk.Provider.{Bytes}
use fs.Plugins.Channel.{Broadcast}
use fs.Plugins.StreamFs.Stream
use fs.Plugins.StreamFs.Stream.{is_empty_chunk, StreamFile, register_reader, oldest}
use fs.Plugins.StreamFs.Provider.{StreamHandle, stream_handle}
use fs.Plugins.StreamFs.Calls.{concat, receive_loop, send_historical, receive_chunks, receive}
use fs.Plugins.StreamFs.Ring.{Holds, write-Holds, write-sender, get_historical_chunks_lem}

module _ (B : Broadcast Bytes) where
  -- The loop takes everything that waits for a receiver that keeps up.
  receive_loop_lem :
      (values : List Bytes) (s : B.Sender) (r : B.Receiver) (buffer : Bytes)
      → B.IsSubscribed s r
      → B.pending s r ≡ values
      → length values ≤ B.capacity s
      → (receive_loop B (length values) s r buffer).1 ≡ buffer ++ concat values
  unfolding receive_loop
  receive_loop_lem [] s r buffer m e l = sym (append-nil buffer)
  receive_loop_lem (value ∷ values) s r buffer m e l =
      let (got, rest) = B.try_recv-some s r value values m e (omega (arith, ap length e)) in
      rw (receive_loop, got)
        (receive_loop_lem values s (B.try_recv s r).0 (buffer ++ value)
            (B.try_recv-IsSubscribed s r m) rest (omega arith)
          ∙ append_assoc buffer value (concat values))

  receive_chunks_lem :
      (f : StreamFile B) (h : StreamHandle B) (r : B.Receiver) (values : List Bytes)
      → h.receiver ≡ some r
      → B.IsSubscribed f.sender r
      → B.pending f.sender r ≡ values
      → length values ≤ B.capacity f.sender
      → (receive_chunks B f h).read_buffer ≡ h.read_buffer ++ concat values
  unfolding receive_chunks
  receive_chunks_lem f h r values e q p l =
      rw (receive_chunks, e, p) (receive_loop_lem values f.sender r h.read_buffer q p l)

  -- A stream with its history, and a handle that `open` has just made to read it.
  module _ (f : StreamFile B) (history : List Bytes) (w : Holds B f history) (now id : ℕ)
      (path : Text) (flags : OpenFlags) (file : ℕ) where
    -- The stream with its new reader.
    abbrev pub opened : StreamFile B
    opened = (register_reader B now f).0

    -- The new handle.
    abbrev pub handle : StreamHandle B
    handle =
        stream_handle B id path flags file opened (some (register_reader B now f).1)
          (some (register_reader B now f).2)

    opened-Holds : Holds B opened history
    unfolding register_reader
    opened-Holds = record {
      ring_length = w.ring_length;
      some_room = w.some_room;
      index = w.index;
      total = w.total;
      kept = w.kept;
      chunks = w.chunks;
    }

    waiting : B.pending opened.sender (register_reader B now f).2 ≡ []
    unfolding register_reader
    waiting = B.subscribe-pending f.sender

    subscribed : B.IsSubscribed opened.sender (register_reader B now f).2
    unfolding register_reader
    subscribed = B.subscribe-IsSubscribed f.sender

    -- What the first block of `read` puts into the buffer of the new handle.
    send_historical_lem :
        (f' : StreamFile B) (history' : List Bytes)
        → Holds B f' history'
        → (send_historical B f' handle).read_buffer
          ≡ concat
              (drop (max (length history - f.ring_size) (length history' - f'.ring_size)) history')
    unfolding send_historical stream_handle register_reader
    send_historical_lem f' history' w' = ap concat (
        get_historical_chunks_lem B (oldest B f) f' history' w'
        ∙ ap (λ n. drop (max (n - f.ring_size) (length history' - f'.ring_size)) history') w.total)

    receiver_kept :
        (f' : StreamFile B)
        → (send_historical B f' handle).receiver ≡ some (register_reader B now f).2
    unfolding send_historical stream_handle
    receiver_kept f' = refl

    -- A first read before any write gets the chunks that the ring still has.
    first_read :
        (receive B opened handle).read_buffer ≡ concat (drop (length history - f.ring_size) history)
    unfolding receive register_reader
    first_read =
        receive_chunks_lem opened (send_historical B opened handle) (register_reader B now f).2 []
          (receiver_kept opened) subscribed waiting (omega arith)
        ∙ append-nil _
        ∙ send_historical_lem opened history opened-Holds
        ∙ ap (λ n. concat (drop n history)) (omega arith)

    receiver_after : (receive B opened handle).receiver ≡ some (register_reader B now f).2
    unfolding receive receive_chunks receive_loop
    receiver_after = rw (receive_chunks, receiver_kept opened, waiting) refl

    sent_before :
        (f' : StreamFile B)
        → send_historical B f' (receive B opened handle) ≡ receive B opened handle
    unfolding receive receive_chunks send_historical stream_handle
    sent_before f' = refl

    module _ (now' : ℕ) (chunk : Bytes) (open_now : f.closed ≡ false)
        (some_bytes : is_empty_chunk chunk ≡ false) (fits : length history + 1 < 2 ^ 64)
        (holds_one : 0 < B.capacity opened.sender) where
      -- The stream after one more write.
      later : StreamFile B
      later = (Stream.write B now' chunk opened).0

      sent : later.sender ≡ B.send chunk opened.sender
      unfolding later register_reader
      sent = (write-sender B now' chunk opened open_now some_bytes opened-Holds.some_room).0

      subscribed_later : B.IsSubscribed later.sender (register_reader B now f).2
      subscribed_later =
          rw sent (B.send-IsSubscribed chunk opened.sender (register_reader B now f).2 subscribed)

      room_later : length (chunk ∷ []) ≤ B.capacity later.sender
      room_later =
          omega (arith, ap B.capacity sent ∙ B.send-capacity chunk opened.sender, holds_one)

      waiting_later : B.pending later.sender (register_reader B now f).2 ≡ chunk ∷ []
      waiting_later = rw sent (
          B.send-pending chunk opened.sender (register_reader B now f).2 subscribed
          ∙ ap (λ values. values ++ chunk ∷ []) waiting)

      later-Holds : Holds B later (history ++ chunk ∷ [])
      unfolding later register_reader
      later-Holds =
          (write-Holds B now' chunk opened history opened-Holds open_now some_bytes fits).1

      size_kept : later.ring_size ≡ f.ring_size
      unfolding later register_reader
      size_kept = (write-sender B now' chunk opened open_now some_bytes opened-Holds.some_room).1

      oldest_later :
          max (length history - f.ring_size) (length (history ++ chunk ∷ []) - later.ring_size)
          ≡ length history + 1 - f.ring_size
      oldest_later = omega (arith, size_kept, length-append history (chunk ∷ []))

      -- On an open stream whose channel holds a value, a chunk that is written between `open` and
      -- the first read is in the ring and waits for the receiver as well: the first read gets it
      -- twice.
      pub first_read_twice :
          (receive B (Stream.write B now' chunk opened).0 handle).read_buffer
          ≡ concat (drop (length history + 1 - f.ring_size) (history ++ chunk ∷ [])) ++ chunk
      unfolding receive later
      first_read_twice =
          receive_chunks_lem later (send_historical B later handle) (register_reader B now f).2
            (chunk ∷ []) (receiver_kept later) subscribed_later waiting_later room_later
          ∙ rw (send_historical_lem later (history ++ chunk ∷ []) later-Holds)
              (rw (oldest_later, append-nil chunk) refl)

      -- On an open stream whose channel holds a value, a chunk that is written after the first read
      -- comes once, behind what was there.
      pub next_read :
          (receive B (Stream.write B now' chunk opened).0 (receive B opened handle)).read_buffer
          ≡ concat (drop (length history - f.ring_size) history) ++ chunk
      unfolding receive later
      next_read = rw (sent_before later) (
          receive_chunks_lem later (receive B opened handle) (register_reader B now f).2
            (chunk ∷ []) receiver_after subscribed_later waiting_later room_later
          ∙ rw (first_read, append-nil chunk) refl)
