-- ===== src/Plugins/PageFs/Keys.antt =====
-- The module `keys` of plugins/pagefs/src/lib.rs: where each record of the file system is stored.
use fs.Base.{
  ℕ, ◌^◌, ◌<◌, ◌≡◌, ◌≢◌, refl, ap, inl, inr, true, false, Bool-cases, starts_with,
  starts_with_append, take-starts_with, [], ◌∷◌, ◌++◌, arith, nat_eq, take, drop, get_or,
}
use fs.Base.Words.{to_be_bytes, to_be_bytes-injective}
use fs.Sdk.Provider.{Bytes}

unfoldable pub superblock : Bytes
superblock = b'S' ∷ []

unfoldable pub inode : ℕ → Bytes
inode inode_id = b'I' ∷ to_be_bytes inode_id

unfoldable pub dir_prefix : ℕ → Bytes
dir_prefix parent_inode = b'D' ∷ (to_be_bytes parent_inode ++ b':' ∷ [])

-- `name` is the UTF-8 text of the name.
unfoldable pub dir_entry : ℕ → Bytes → Bytes
unfolding dir_prefix
dir_entry parent_inode name = dir_prefix parent_inode ++ name

unfoldable pub page_prefix : ℕ → Bytes
page_prefix inode_id = b'P' ∷ (to_be_bytes inode_id ++ b':' ∷ [])

unfoldable pub page : ℕ → ℕ → Bytes
unfolding page_prefix
page inode_id page_num = page_prefix inode_id ++ to_be_bytes page_num

-- Two pages share a key only if they are the same page of the same file.
pub page-injective :
    (i j n m : ℕ)
    → i < 2 ^ 64
    → j < 2 ^ 64
    → n < 2 ^ 64
    → m < 2 ^ 64
    → page i n ≡ page j m
    → (i ≡ j) × (n ≡ m)
unfolding page to_be_bytes
page-injective i j n m a b c d e = (
  to_be_bytes-injective i j a b (unfold to_be_bytes in ap (λ (k : Bytes). take 8 (drop 1 k)) e),
  to_be_bytes-injective n m c d (unfold to_be_bytes in ap (λ (k : Bytes). drop 10 k) e),
)

pub inode-injective : (i j : ℕ) → i < 2 ^ 64 → j < 2 ^ 64 → inode i ≡ inode j → i ≡ j
unfolding inode
inode-injective i j a b e = to_be_bytes-injective i j a b (ap (drop 1) e)

abbrev tag : Bytes → ℕ
tag key = get_or key 0 0

-- The kinds of records never share a key.
pub page-ne-inode : (i n j : ℕ) → page i n ≢ inode j
unfolding page inode
page-ne-inode i n j e = absurd (omega (arith, ap tag e))

pub dir_entry-ne-inode : (i j : ℕ) (name : Bytes) → dir_entry i name ≢ inode j
unfolding dir_entry inode
dir_entry-ne-inode i j name e = absurd (omega (arith, ap tag e))

pub page-ne-dir_entry : (i n j : ℕ) (name : Bytes) → page i n ≢ dir_entry j name
unfolding dir_entry page
page-ne-dir_entry i n j name e = absurd (omega (arith, ap tag e))

-- The keys that `delete_pages` scans for are those of the pages of its file.
pub page-starts_with : (i n : ℕ) → starts_with (page i n) (page_prefix i) ≡ true
unfolding page
page-starts_with i n = starts_with_append (page_prefix i) (to_be_bytes n)

pub page-starts_with_other :
    (i j n : ℕ) → i < 2 ^ 64 → j < 2 ^ 64 → i ≢ j → starts_with (page i n) (page_prefix j) ≡ false
unfolding page to_be_bytes
page-starts_with_other i j n a b d = elim (Bool-cases (starts_with (page i n) (page_prefix j))) [
  | inl e ↦ absurd (
      d (
        to_be_bytes-injective i j a b
          (unfold to_be_bytes in ap (λ (k : Bytes). take 8 (drop 1 k)) (take-starts_with _ _ e))))
  | inr e ↦ e
]

pub inode-starts_with : (i j : ℕ) → starts_with (inode i) (page_prefix j) ≡ false
unfolding inode page_prefix starts_with
inode-starts_with i j = refl

pub dir_entry-starts_with :
    (i j : ℕ) (name : Bytes) → starts_with (dir_entry i name) (page_prefix j) ≡ false
unfolding dir_entry page_prefix starts_with
dir_entry-starts_with i j name = refl

pub superblock-ne-inode : (i : ℕ) → inode i ≢ superblock
unfolding superblock inode
superblock-ne-inode i e = absurd (omega (arith, ap tag e))

pub superblock-ne-page : (i n : ℕ) → page i n ≢ superblock
unfolding superblock page
superblock-ne-page i n e = absurd (omega (arith, ap tag e))

pub superblock-ne-dir_entry : (i : ℕ) (name : Bytes) → dir_entry i name ≢ superblock
unfolding superblock dir_entry
superblock-ne-dir_entry i name e = absurd (omega (arith, ap tag e))
