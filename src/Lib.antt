-- ===== src/Lib.antt =====
-- FS9: a distributed file system whose parts all speak one interface (`FsProvider`).
--
-- A client asks the server for paths and open files. The router (`VfsRouter`) looks the path up in the
-- mount table, checks what the provider found there can do, and forwards the call with the rest of the
-- path; an open file becomes a handle of the handle registry, which remembers the provider and its own
-- handle. Providers keep the files: `MemoryFs` in memory, PageFS in pages over a key-value store,
-- StreamFS in streams that many write and read. The server guards its calls of the metadata service by
-- a circuit breaker, and the FUSE client keeps two tables of the numbers by which the kernel knows
-- inodes and open files.
--
-- The files, and the code that they model:
--   Base         what Rust's library does with numbers, `Vec`, `str`, `HashMap` and `BTreeMap`, as far
--                as the code uses it: lists and maps with their lemmas, the order of texts, UTF-8,
--                big-endian words
--   Sdk          sdk/src: FsError, the requests and answers of providers, Capabilities, FsProvider
--   Core.Paths   normalize_path and parent_path of core/src/providers/memfs/mod.rs
--   Core.Mount   core/src/mount.rs: MountTable, an ordered map from paths to providers
--   Core.Handle  core/src/handle.rs: HandleRegistry, 64 shards of handles with their last access
--   Core.MemFs   core/src/providers/memfs/mod.rs: MemoryFs, a map from paths to entries
--   Core.Vfs     core/src/vfs.rs: VfsRouter over any providers; Core.Vfs.Memory puts MemoryFs behind
--                the interface
--   Plugins.PageFs   plugins/pagefs/src/lib.rs (Keys, Kv, Node) and plugins/pagefs/src/provider.rs
--                (Store, Names, Files, Tree, Changes): PageFsProvider and InMemoryKv; the other
--                files are about bytes, names and sizes under these operations
--   Plugins.StreamFs plugins/streamfs/src/lib.rs: StreamFile (Stream) with its ring of chunks, and
--                StreamFsProvider (Provider, Calls)
--   Plugins.PubSubFs plugins/pubsubfs/src/lib.rs: Message and Topic (Topic), the names of the directory
--                (Names) and PubSubFsProvider (Provider, Calls)
--   Plugins.Kv   plugins/kv/src/lib.rs: KvProvider over one ordered map (Provider)
--   Sh9.Arithmetic   sh9/src/eval/arithmetic.rs, the evaluation of $((...)), with its trees and texts
--                (Grammar) and the values of variables of sh9/src/eval/expansion.rs (Sh9.Variables)
--   Sh9.Glob     sh9/src/eval/utils.rs: match_glob_pattern
--   Server.CircuitBreaker   server/src/circuit_breaker.rs
--   Server.Dates   iso8601_now of server/src/namespace.rs, with the calendar (Calendar)
--   Fuse.Inodes, Fuse.Handles   fuse/src/inode.rs and fuse/src/handle.rs
--   Tests        runs on small inputs, and each theorem at an input that meets its hypotheses
-- A function keeps the name that it has in the code (`open` is `open_file`). It takes the state last
-- and returns the new state beside the result; the clock, where the code reads it, is an argument.
--
-- Conventions: one operation runs at a time, as under the locks of the code; operations of PageFS hold
-- no lock as a whole, so that calls at the same time are out of the model. `usize` has 64 bits and sums
-- wrap around as in a release build, or the model returns `panic` where the code would index out of
-- range or unwrap `None`. Times before 1970 are left out. Texts are lists of Unicode scalar values.
-- Memory never runs out, so that no `Vec` is too large to be allocated (`Vec::resize` panics above
-- `isize::MAX` bytes).
--
-- What stands behind an interface is a parameter: the providers behind the router (`Providers`), the
-- key-value store of PageFS (`KvBackend`, with the laws of a map, which `Kv.memory` instantiates), the
-- codec of its records (`Serde`: serde_json reads back what it wrote), the channel of StreamFS and
-- PubSubFS (`Broadcast`: tokio, with what its documentation
-- says of a receiver that keeps up and of one that falls behind), the format
-- of dates of PubSubFS, and the environment and the tables of Unicode of sh9 (`World`).
--
-- Loops: those over lists are structural. `read_loop` and `write_loop` of PageFS run on fuel, as many
-- rounds as there are bytes, which is enough because a round takes a byte at least. `receive_loop` of
-- StreamFS and PubSubFS runs on as many rounds as there are values that wait, and takes one in each.
-- The parsers of sh9 spend a unit of fuel on each call: eight for each character and five more are
-- enough, since a character begins at most that many calls. `expand_loop` takes a character in a round,
-- and `match_glob_pattern` one of the pattern.
--
-- Not modelled: plugins and their C interface, the providers on local disks and on other servers, the
-- other plugins, the stores on TiKV and S3, the HTTP interface, authentication, the token cache, rate
-- limits and the table of namespaces of the server, the metadata service, configuration, the command line, the
-- clients, the callbacks of FUSE and the rest of the shell sh9, whose lexer and parser are written in the
-- combinators of a library. They are glue around libraries, or wait for their
-- turn.
pub mod Base
pub mod Sdk
pub mod Core
pub mod Plugins
pub mod Server
pub mod Fuse
pub mod Sh9
pub mod Tests
