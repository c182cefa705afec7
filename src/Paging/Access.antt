-- ===== src/Paging/Access.antt =====
-- What the check of a range that a process passes in, of kernel/paging.c, says of every byte of it.
use mars_os.Base.{
  ℕ, ◌+◌, ◌-◌, ◌*◌, ◌/◌, ◌%◌, ◌^◌, ◌≤◌, ◌<◌, ◌≡◌, ◌≢◌, refl, sym, ◌∙◌, Bool, true, false, not, ◌&&◌,
  none, some, ◌==◌, if◌then◌else◌, arith,
}
use Prim.Native.Nat.{bit_and}
use mathlib.Core.Path.{subst}
use mars_os.Paging.{
  Space, active_directory, user_accessible, user_page, translate, pd_index, pt_index,
}
use mars_os.Paging.Words.{bit_and-frame, bit_and-user_present}
use mars_os.Paging.Tables.{base_of, page_entry, leaf}
use mars_os.Paging.Ensure.{IsSpace, entry_of, leaf_of, translate-leaf}
use mars_os.Paging.Walk.{user_accessible_lem, every-at, all_pages}

user_page-leaf :
    (s : Space) (a : ℕ)
    → IsSpace s
    → user_page s (base_of a) ≡ true
    → (leaf_of s (pd_index a) (pt_index a) ≢ 0)
      × ((entry_of s (pd_index a) / 4 % 2 == 1) ≡ true)
      × ((leaf_of s (pd_index a) (pt_index a) / 4 % 2 == 1) ≡ true)
unfolding user_page leaf
user_page-leaf s a v h =
    let p : pd_index (base_of a) ≡ pd_index a = omega arith in
    let q : pt_index (base_of a) ≡ pt_index a = omega arith in
    let w = entry_of s (pd_index a) in
    let frame : bit_and w 0xFFFFF000 ≡ base_of w =
      bit_and-frame w (v.tables.entry_lt (pd_index a) (omega arith)) in
    let e = page_entry (active_directory s) s.word (pd_index a) (pt_index a) in
    let k : user_page s (base_of a) ≡ (
        if not (bit_and w 5 == 5) then false else if not (bit_and e 5 == 5) then false else true) =
      rw p (rw q (rw frame refl)) in
    let entry = bit_and-user_present w in
    let page = bit_and-user_present e in
    (
      ground (arith, k, h, entry, page),
      ground (arith, k, h, entry, page),
      ground (arith, k, h, entry, page),
    )

-- Both entries of the byte have the user flag.
unfoldable pub is_user_byte : Space → ℕ → Bool
is_user_byte s a =
    entry_of s (pd_index a) / 4 % 2 == 1 && leaf_of s (pd_index a) (pt_index a) / 4 % 2 == 1

page_of :
    (s : Space) (virt size a : ℕ)
    → all_pages (user_page s) virt size ≡ true
    → virt ≤ a
    → a < virt + size
    → user_page s (base_of a) ≡ true
page_of s virt size a h l g =
    let i : ℕ = a / 4096 - virt / 4096 in
    let e : (virt / 4096 + i) * 4096 ≡ base_of a = omega arith in
    subst (λ x. user_page s x ≡ true) e
      (every-at (λ j. user_page s ((virt / 4096 + j) * 4096))
        ((virt + size - 1) / 4096 - virt / 4096 + 1) i h (omega arith))

-- A range that `paging_user_accessible` accepts does not wrap around the end of the memory, and
-- each of its bytes is translated and lies in a page with the user flag in both of its entries.
pub user_accessible_sound :
    (s : Space) (virt size a : ℕ)
    → IsSpace s
    → virt < 2 ^ 32
    → size < 2 ^ 32
    → user_accessible s virt size ≡ some true
    → virt ≤ a
    → a < virt + size
    → (a < 2 ^ 32) × (translate s a ≢ none) × (is_user_byte s a ≡ true)
unfolding is_user_byte
user_accessible_sound s virt size a v h l ok g k =
    let e = sym (user_accessible_lem s virt size h l) ∙ ok in
    let p = page_of s virt size a (ground (arith, e)) g k in
    let n = user_page-leaf s a v p in
    let t = translate-leaf s a v in
    (ground (arith, e), λ none_. absurd (ground (arith, n.0, t, none_)), ground (arith, n.1, n.2))
