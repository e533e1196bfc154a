-- ===== src/Core/Vfs/Gates.antt =====
-- What the router lets through to a provider.
use fs.Base.{
  ℕ, ◌≡◌, ap, ◌≢◌, inl, inr, Bool, true, false, not, ◌&&◌, ◌||◌, some, arith, nat_eq, Option-cases,
  Text, chars, text_eq,
}
use fs.Base.Map.{is_some}
use fs.Sdk.Error.{ok, FsError, err, invalid_argument}
use fs.Sdk.Types.{no_flags, StatChanges, OpenFlags}
use fs.Sdk.Capabilities.{Capabilities, Capability}
use fs.Sdk.Provider.{ProviderId, Providers}
use fs.Core.Mount
use fs.Core.Vfs.{wstat_gate, open_gate, translate_name, VfsRouter, wstat, open_file}

-- A change that is asked for needs its capability.
abbrev needs : Bool → Bool → Bool
needs asked allowed = not asked || allowed

-- Every change that is asked for is allowed, read off the table of capabilities at once.
abbrev pub changes_allowed : Capabilities → StatChanges → Bool
changes_allowed caps c =
    needs (is_some c.mode) (caps Capability.chmod)
    && needs (is_some c.uid) (caps Capability.chown)
    && needs (is_some c.gid) (caps Capability.chown)
    && needs (is_some c.size) (caps Capability.truncate)
    && needs (is_some c.atime) (caps Capability.utime)
    && needs (is_some c.mtime) (caps Capability.utime)
    && needs (is_some c.name) (caps Capability.rename)
    && needs (is_some c.symlink_target) (caps Capability.symlink)

abbrev pub opening_allowed : Capabilities → OpenFlags → Bool
opening_allowed caps flags =
    needs flags.read (caps Capability.read)
    && needs flags.write (caps Capability.write)
    && needs flags.create (caps Capability.create)

-- The checks of `wstat` pass exactly when the provider has the capability of every change that is
-- asked for, and those of `open` exactly when it has that of every flag.
gates_iff :
    (caps : Capabilities) (c : StatChanges) (flags : OpenFlags)
    → (is_some (wstat_gate caps c) ≡ not (changes_allowed caps c))
      × (is_some (open_gate caps flags) ≡ not (opening_allowed caps flags))
unfolding wstat_gate open_gate
gates_iff caps c flags = (ground arith, ground arith)

module _ (P : Providers) (v : VfsRouter P) (path : Text) (p : ProviderId) (rel : Text)
    (resolved : Mount.resolve path v.mount_table ≡ ok (p, rel)) where
  -- A call that asks for more than the provider can do fails, and neither the provider nor the
  -- router's tables see it.
  pub gated_calls :
      (now : ℕ) (c : StatChanges) (flags : OpenFlags)
      → changes_allowed (P.capabilities p) c ≡ false
      → opening_allowed (P.capabilities p) flags ≡ false
      → ((e : FsError) × (wstat P path c v ≡ (v, err e)))
        × ((e : FsError) × (open_file P now path flags v ≡ (v, err e)))
  unfolding wstat open_file
  gated_calls now c flags h k = (
    elim (Option-cases (wstat_gate (P.capabilities p) c)) [
      | inl e ↦ absurd (ground (arith, (gates_iff (P.capabilities p) c flags).0, ap is_some e))
      | inr (x, e) ↦ (x, ground (arith, resolved, e))
    ],
    elim (Option-cases (open_gate (P.capabilities p) flags)) [
      | inl e ↦ absurd (ground (arith, (gates_iff (P.capabilities p) c flags).1, ap is_some e))
      | inr (x, e) ↦ (x, ground (arith, resolved, e))
    ],
  )

  -- A rename to a path of another provider fails, and no provider is called.
  rename_across :
      (c : StatChanges) (new_name : Text) (q : ProviderId) (rel' : Text)
      → changes_allowed (P.capabilities p) c ≡ true
      → c.name ≡ some new_name
      → Mount.resolve new_name v.mount_table ≡ ok (q, rel')
      → p ≢ q
      → wstat P path c v ≡ (v, err (invalid_argument (chars "cannot rename across mount points")))
  unfolding wstat translate_name
  rename_across c new_name q rel' a n r d = elim (Option-cases (wstat_gate (P.capabilities p) c)) [
    | inr (x, e) ↦
        absurd (ground (arith, (gates_iff (P.capabilities p) c no_flags).0, ap is_some e))
    | inl e ↦ ground (arith, resolved, e, n, r)
  ]
