-- ===== src/Tests/Streams.antt =====
-- The streams of plugins/streamfs/src/lib.rs over a channel of bounded size.
use fs.Base.{false, ◌≡◌, refl, List, [], ◌∷◌, arith, chars}
use fs.Sdk.Error.{ok}
use fs.Sdk.Flags
use fs.Sdk.Provider.{Bytes}
use fs.Plugins.Channel.{Broadcast}
use fs.Tests.Channels.{bounded}
use fs.Plugins.StreamFs.Stream
use fs.Plugins.StreamFs.Stream.{StreamFile, get_historical_chunks, register_reader}
use fs.Plugins.StreamFs.Calls.{receive}
use fs.Plugins.StreamFs.Ring.{Holds, new-Holds, write-Holds, get_historical_chunks_lem}
use fs.Plugins.StreamFs.Late.{first_read_twice, opened, handle}

abbrev pipes : Broadcast Bytes
pipes = bounded Bytes

-- A ring of 2 places and the writes of `a`, `b` and `c`.
abbrev three : List Bytes
three = chars "a" ∷ chars "b" ∷ chars "c" ∷ []

abbrev made : StreamFile pipes
made = record {
  name = chars "/s";
  total_written = 0;
  closed = false;
  mtime = 0;
  ring_buffer = [] ∷ [] ∷ [];
  ring_size = 2;
  write_index = 0;
  total_chunks = 0;
  sender = pipes.channel 100;
  readers = [];
  next_reader_id = 1;
}

fresh : Stream.new pipes 0 (chars "/s") 2 100 ≡ ok made
unfolding Stream.new
fresh = refl

abbrev after_a : StreamFile pipes
after_a = (Stream.write pipes 1 (chars "a") made).0

abbrev after_b : StreamFile pipes
after_b = (Stream.write pipes 2 (chars "b") after_a).0

abbrev stream : StreamFile pipes
stream = (Stream.write pipes 3 (chars "c") after_b).0

stream-Holds : Holds pipes stream three
unfolding Stream.new Stream.write
stream-Holds =
    (write-Holds pipes 3 (chars "c") after_b (chars "a" ∷ chars "b" ∷ [])
      (write-Holds pipes 2 (chars "b") after_a (chars "a" ∷ [])
        (write-Holds pipes 1 (chars "a") made []
          (new-Holds pipes 0 (chars "/s") 2 100 made fresh (omega arith)) refl refl (omega arith)).1
        refl refl (omega arith)).1
      refl refl (omega arith)).1

get_historical_chunks_lem_example :
    get_historical_chunks pipes 0 stream ≡ chars "b" ∷ chars "c" ∷ []
unfolding Stream.new Stream.write
get_historical_chunks_lem_example = get_historical_chunks_lem pipes 0 stream three stream-Holds

first_read_twice_example :
    (receive pipes
      (Stream.write pipes 6
        (chars "d")
        (opened pipes stream three stream-Holds 5 1 (chars "/s") Flags.read 0)).0
      (handle pipes stream three stream-Holds 5 1 (chars "/s") Flags.read 0)).read_buffer
    ≡ chars "cdd"
unfolding Stream.new Stream.write register_reader
first_read_twice_example =
    first_read_twice pipes stream three stream-Holds 5 1 (chars "/s") Flags.read 0 6 (chars "d")
      refl refl (omega arith) (omega arith)
