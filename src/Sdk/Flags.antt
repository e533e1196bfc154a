-- ===== src/Sdk/Flags.antt =====
-- sdk/src/types.rs: the constructors of `OpenFlags` that clients use.
use fs.Base.{true}
use fs.Sdk.Types.{OpenFlags, no_flags}

abbrev pub read : OpenFlags
read = record no_flags { read = true }

abbrev pub read_write : OpenFlags
read_write = record no_flags { read = true; write = true }

abbrev pub create_file : OpenFlags
create_file = record no_flags { read = true; write = true; create = true }

abbrev pub create_dir : OpenFlags
create_dir = record no_flags { create = true; directory = true }

abbrev pub append : OpenFlags
append = record no_flags { write = true; append = true }
