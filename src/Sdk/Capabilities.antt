-- ===== src/Sdk/Capabilities.antt =====
-- sdk/src/capabilities.rs: what a provider can do, as a set of flags.
use fs.Base.{Bool, true, false, ◌||◌}

pub data Capability : Type 0 where
  read write create delete rename truncate : Capability
  chmod chown utime : Capability
  hardlink symlink : Capability
  sync append random_write streaming blocking_read : Capability
  versioning etag atomic_rename directory xattr : Capability
  synthetic stateful_read stateful_write : Capability

abbrev pub Capabilities : Type 0
Capabilities = Capability → Bool

-- `bitflags`: the union of two sets; `contains` of one flag is the application.
infixl 30 ◌∪◌
abbrev pub ◌∪◌ : Capabilities → Capabilities → Capabilities
(a ∪ b) c = a c || b c

abbrev pub basic_rw : Capabilities
basic_rw read = true
basic_rw write = true
basic_rw create = true
basic_rw delete = true
basic_rw directory = true
basic_rw _ = false

abbrev posix_extra : Capabilities
posix_extra rename = true
posix_extra truncate = true
posix_extra chmod = true
posix_extra chown = true
posix_extra utime = true
posix_extra symlink = true
posix_extra xattr = true
posix_extra sync = true
posix_extra random_write = true
posix_extra _ = false

abbrev pub posix_like : Capabilities
posix_like = basic_rw ∪ posix_extra
