-- ===== src/Fuse/Handles.antt =====
-- fuse/src/handle.rs: the numbers under which the kernel knows the open files of the client.
-- `FileHandle` is that of the client library, and a flag word is an `i32` that is passed through.
use fs.Base.{
  ℕ, ◌+◌, ◌%◌, ◌^◌, ◌<◌, ◌≡◌, ◌≢◌, inl, inr, Option, none, some, [], arith, eqb, if◌then◌else◌,
  nat_eq, Option-cases, text_eq, refl,
}
use fs.Base.Map.{Map, get, insert, remove, get-insert, get-remove}

pub record HandleEntry (FileHandle Flags : Type 0) : Type 0 where
  pub handle : FileHandle
  pub flags : Flags

pub record HandleTable (FileHandle Flags : Type 0) : Type 0 where
  pub next_fh : ℕ
  pub fh_to_handle : Map ℕ (HandleEntry FileHandle Flags)

module _ {FileHandle Flags : Type 0} where
  unfoldable pub new : HandleTable FileHandle Flags
  new = record { next_fh = 1; fh_to_handle = [] }

  -- The counter is a `u64`, which wraps around.
  unfoldable pub insert_handle :
      FileHandle → Flags → HandleTable FileHandle Flags → HandleTable FileHandle Flags × ℕ
  unfolding insert
  insert_handle handle flags t = (
    record t {
      next_fh = (t.next_fh + 1) % 2 ^ 64;
      fh_to_handle = insert t.fh_to_handle t.next_fh (record { handle = handle; flags = flags });
    },
    t.next_fh,
  )

  unfoldable pub handle_of : Option (HandleEntry FileHandle Flags) → Option FileHandle
  handle_of none = none
  handle_of (some e) = some e.handle

  unfoldable pub get_handle : ℕ → HandleTable FileHandle Flags → Option FileHandle
  unfolding get handle_of
  get_handle fh t = handle_of (get t.fh_to_handle fh)

  unfoldable pub get_flags : ℕ → HandleTable FileHandle Flags → Option Flags
  unfolding get
  get_flags fh t = elim (get t.fh_to_handle fh) [ none ↦ none | some e ↦ some e.flags ]

  unfoldable pub remove_handle :
      ℕ → HandleTable FileHandle Flags → HandleTable FileHandle Flags × Option FileHandle
  unfolding get remove handle_of
  remove_handle fh t =
      (record t { fh_to_handle = remove t.fh_to_handle fh }, handle_of (get t.fh_to_handle fh))

  -- Every number that is in the table has been given out.
  abbrev pub AreGiven : HandleTable FileHandle Flags → Type 0
  AreGiven t = (fh : ℕ) → get t.fh_to_handle fh ≢ none → fh < t.next_fh

  pub new-AreGiven : AreGiven new
  unfolding new get
  new-AreGiven fh h = absurd (h refl)

  given_unused :
      (t : HandleTable FileHandle Flags) → AreGiven t → get t.fh_to_handle t.next_fh ≡ none
  given_unused t given = elim (Option-cases (get t.fh_to_handle t.next_fh)) [
    | inl e ↦ e
    | inr (s, e) ↦ absurd (omega (arith, given t.next_fh (λ h. cc (e, h))))
  ]

  -- Both methods that change the table keep the numbers below the counter.
  pub insert_handle-AreGiven :
      (handle : FileHandle) (flags : Flags) (t : HandleTable FileHandle Flags)
      → AreGiven t
      → t.next_fh + 1 < 2 ^ 64
      → AreGiven (insert_handle handle flags t).0
  unfolding insert_handle
  insert_handle-AreGiven handle flags t given small fh h =
      let e : HandleEntry FileHandle Flags = record { handle = handle; flags = flags } in
      ground (arith, get-insert t.fh_to_handle t.next_fh e fh, given fh)

  pub remove_handle-AreGiven :
      (gone : ℕ) (t : HandleTable FileHandle Flags) → AreGiven t → AreGiven (remove_handle gone t).0
  unfolding remove_handle
  remove_handle-AreGiven gone t given fh h =
      ground (arith, get-remove t.fh_to_handle gone fh, given fh)

  -- If every number in the table was given out, a new file gets a number that no open file has, the
  -- table finds the file under it and every other file where it was, and removing the new file
  -- restores every lookup.
  insert_handle_lem :
      (handle : FileHandle) (flags : Flags) (t : HandleTable FileHandle Flags)
      → AreGiven t
      → (fh : ℕ)
      → (get_handle (insert_handle handle flags t).1 t ≡ none)
        × ((get_handle fh (insert_handle handle flags t).0)
            ≡ (if eqb (insert_handle handle flags t).1 fh then some handle else get_handle fh t))
        × ((get_handle fh
              (remove_handle (insert_handle handle flags t).1 (insert_handle handle flags t).0).0)
            ≡ get_handle fh t)
  unfolding get_handle insert_handle handle_of remove_handle
  insert_handle_lem handle flags t given fh =
      let e : HandleEntry FileHandle Flags = record { handle = handle; flags = flags } in
      let added = insert t.fh_to_handle t.next_fh e in
      let unused = given_unused t given in
      (
        ground (arith, unused),
        ground (arith, get-insert t.fh_to_handle t.next_fh e fh),
        ground (
          arith,
          unused,
          get-remove added t.next_fh fh,
          get-insert t.fh_to_handle t.next_fh e fh,
        ),
      )
