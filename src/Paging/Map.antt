-- ===== src/Paging/Map.antt =====
-- `paging_map_page`, `paging_unmap_page` and `paging_translate` of kernel/paging.c as a map from pages.
use mars_os.Base.{
  ℕ, ◌+◌, ◌/◌, ◌%◌, ◌^◌, ◌<◌, ◌≡◌, refl, sym, ◌∙◌, Bool, true, false, not, ◌&&◌, ◌||◌, none, some,
  ◌==◌, ltb, if◌then◌else◌, arith, Bool-cases, inl, inr,
}
use Prim.Native.Nat.{bit_and, bit_or}
use mathlib.Core.Path.{subst}
use mars_os.Paging.{
  Space, active_directory, slot, is_present, pd_index, pt_index, ensure_table, put_entry, map_page,
  unmap_page, translate, table_slot,
}
use mars_os.Paging.Words.{bit_and-offset, bit_and-frame, bit_or-offset, bit_or-present}
use mars_os.Paging.Tables.{odd, base_of, page_entry, leaf}
use mars_os.Paging.Tables.Write.{leaf-table_write, table_write-IsTables, table_write}
use mars_os.Paging.Ensure.{
  IsSpace, Ensured, entry_of, leaf_of, present-odd, translate-leaf, with_words, with_words-IsSpace,
  ensure_table_lem,
}

-- The entry that the tables hold for the page of an address.
abbrev pub entry_at : Space → ℕ → ℕ
entry_at s virt = leaf_of s (pd_index virt) (pt_index virt)

abbrev pub is_mapped : Space → ℕ → Bool
is_mapped s virt = not (entry_at s virt == 0)

module _ (s : Space) (v : IsSpace s) (pd pt : ℕ) (h : pd < 1024) (l : pt < 1024)
    (there : odd (entry_of s pd) ≡ true) where
  -- The space after the entry of a page is written.
  abbrev written : ℕ → Space
  written x =
      with_words s s.pmm (table_write s.pmm (active_directory s) s.word v.tables pd pt h l there x)

  written-IsSpace : (x : ℕ) → x < 2 ^ 32 → IsSpace (written x)
  written-IsSpace x small =
      with_words-IsSpace s s.pmm _ v.on v.pmm_valid
        (table_write-IsTables s.pmm (active_directory s) s.word v.tables pd pt h l there x small)

  leaf-written :
      (x i j : ℕ)
      → i < 1024
      → j < 1024
      → leaf_of (written x) i j
        ≡ (if i == pd && j == pt then (if odd x then x else 0) else leaf_of s i j)
  unfolding active_directory
  leaf-written x i j g k =
      leaf-table_write s.pmm (active_directory s) s.word v.tables pd pt h l there x i j g k

  mask-base : bit_and (entry_of s pd) 0xFFFFF000 ≡ base_of (entry_of s pd)
  mask-base = bit_and-frame (entry_of s pd) (v.tables.entry_lt pd h)

  leaf-page_entry :
      (leaf_of s pd pt == 0) ≡ not (odd (page_entry (active_directory s) s.word pd pt))
  unfolding leaf
  leaf-page_entry = ground (arith, there)

  abbrev new_entry : ℕ → ℕ → ℕ
  new_entry phys flags = bit_or (bit_and phys 0xFFFFF000) (bit_and flags 0xFFF)

  put_entry_lem :
      (phys flags : ℕ)
      → put_entry s (slot (active_directory s) pd) pt phys flags
        ≡ (if leaf_of s pd pt == 0 then (true, written (new_entry phys flags)) else (false, s))
  unfolding put_entry
  put_entry_lem phys flags =
      rw mask-base (
        ground (arith, leaf-page_entry, present-odd (page_entry (active_directory s) s.word pd pt)))

  abbrev put : ℕ → ℕ → Bool × Space
  put phys flags = put_entry s (slot (active_directory s) pd) pt phys flags

  put-leaves :
      (phys flags i j : ℕ)
      → new_entry phys flags < 2 ^ 32
      → odd (new_entry phys flags) ≡ true
      → i < 1024
      → j < 1024
      → ((put phys flags).0 ≡ (leaf_of s pd pt == 0))
        × IsSpace (put phys flags).1
        × (leaf_of (put phys flags).1 i j ≡ (
            if (put phys flags).0 && (i == pd && j == pt)
            then new_entry phys flags
            else leaf_of s i j))
  put-leaves phys flags i j small o g k = elim (Bool-cases (leaf_of s pd pt == 0)) [
    | inl free ↦
        let e : put phys flags ≡ (true, written (new_entry phys flags)) =
          put_entry_lem phys flags ∙ (rw free refl) in
        rw e (
          sym free,
          written-IsSpace (new_entry phys flags) small,
          leaf-written (new_entry phys flags) i j g k ∙ (rw o refl),
        )
    | inr taken ↦
        let e : put phys flags ≡ (false, s) = put_entry_lem phys flags ∙ (rw taken refl) in
        rw e (sym taken, v, refl)
  ]

abbrev present_flags : ℕ → ℕ
present_flags flags = if is_present flags then flags else bit_or flags 1

odd-present_flags : (flags : ℕ) → odd (present_flags flags) ≡ true
odd-present_flags flags = ground (arith, present-odd flags, bit_or-present flags)

abbrev pub is_aligned : ℕ → Bool
is_aligned a = a % 4096 == 0

-- The entry that is written for a page: the frame's address and the twelve flags.
entry-eq :
    (phys f : ℕ)
    → phys < 2 ^ 32
    → bit_or (bit_and phys 0xFFFFF000) (bit_and f 0xFFF) ≡ base_of phys + f % 4096
entry-eq phys f h =
    rw (bit_and-frame phys h)
      (rw (bit_and-offset f) (bit_or-offset (phys / 4096) (f % 4096) (omega arith)))

map_page-eq :
    (s : Space) (virt phys flags : ℕ)
    → IsSpace s
    → is_aligned virt && is_aligned phys ≡ true
    → map_page s virt phys flags ≡ (
        let at = slot (active_directory s) (pd_index virt) in
        let (there, s') = ensure_table s at (present_flags flags) in
        if there then put_entry s' at (pt_index virt) phys (present_flags flags) else (false, s'))
unfolding map_page
map_page-eq s virt phys flags v a = ground (arith, v.on, bit_and-offset virt, bit_and-offset phys)

map_page-unaligned :
    (s : Space) (virt phys flags : ℕ)
    → is_aligned virt && is_aligned phys ≡ false
    → map_page s virt phys flags ≡ (false, s)
unfolding map_page
map_page-unaligned s virt phys flags a = ground (arith, bit_and-offset virt, bit_and-offset phys)

-- A page can be mapped if nothing is mapped there and its table is there, or a frame for it.
abbrev pub has_room : Space → ℕ → Bool
has_room s virt = odd (entry_of s (pd_index virt)) || ltb s.pmm.used s.pmm.total

module _ (s : Space) (v : IsSpace s) (virt phys flags : ℕ) (small : phys < 2 ^ 32) where
  abbrev mapping : Bool × Space
  mapping = map_page s virt phys flags

  abbrev pub value : ℕ
  value = base_of phys + present_flags flags % 4096

  abbrev pub maps : Bool
  maps = is_aligned virt && is_aligned phys && (not (is_mapped s virt) && has_room s virt)

  -- The result of writing the entry, the directory's address being `d`.
  abbrev Put : Space → ℕ → ℕ → ℕ → Type 0
  Put s₁ i j d =
      let r = put_entry s₁ (slot d (pd_index virt)) (pt_index virt) phys (present_flags flags) in
      (r.0 ≡ not (is_mapped s virt))
      × IsSpace r.1
      × (leaf_of r.1 i j
          ≡ (if r.0 && (i == pd_index virt && j == pt_index virt) then value else leaf_of s i j))

  leaves_after :
      (s₁ : Space)
      → Ensured s (pd_index virt) s₁
      → (i j : ℕ) → i < 1024
      → j < 1024
      → Put s₁ i j (active_directory s)
  leaves_after s₁ e i j g k =
      let x = entry-eq phys (present_flags flags) small in
      let p =
        put-leaves s₁ e.valid (pd_index virt) (pt_index virt) (omega arith) (omega arith) e.there
          phys (present_flags flags) i j (rw x (omega arith))
          (rw x (ground (arith, odd-present_flags flags))) g k in
      let here = e.leaves (pd_index virt) (pt_index virt) (omega arith) (omega arith) in
      subst (Put s₁ i j) e.same_dir
        (p.0 ∙ ground (arith, here), p.1, p.2 ∙ (rw x (rw (e.leaves i j g k) refl)))

  map_page-leaves :
      (i j : ℕ)
      → i < 1024
      → j < 1024
      → (mapping.0 ≡ maps)
        × IsSpace mapping.1
        × (leaf_of mapping.1 i j ≡ (
            if mapping.0 && (i == pd_index virt && j == pt_index virt)
            then value
            else leaf_of s i j))
  map_page-leaves i j g k = elim (Bool-cases (is_aligned virt && is_aligned phys)) [
    | inr off ↦ rw (map_page-unaligned s virt phys flags off) (ground (arith, off), v, refl)
    | inl on ↦
        let at = slot (active_directory s) (pd_index virt) in
        let (done, after) =
          ensure_table_lem s v (pd_index virt) (present_flags flags) (omega arith) in
        let eq = map_page-eq s virt phys flags v on in
        elim (Bool-cases (has_room s virt)) [
          | inl room ↦
              let made : (ensure_table s at (present_flags flags)).0 ≡ true = done ∙ room in
              let (d, sp, l) =
                leaves_after (ensure_table s at (present_flags flags)).1 (rw made at after) i j g
                  k in
              rw eq (rw made (d ∙ ground (arith, on, room), sp, l))
          | inr none_ ↦
              let unmade : (ensure_table s at (present_flags flags)).0 ≡ false = done ∙ none_ in
              let same : (ensure_table s at (present_flags flags)).1 ≡ s = rw unmade at after in
              rw eq (rw unmade (rw same (ground (arith, none_), v, refl)))
        ]
  ]

-- `paging_map_page` maps a page exactly if both addresses are aligned, the page is not mapped, and
-- its table is there or a frame is left for one. Then that page is translated to the frame, and
-- every other page as before; otherwise every page is translated as before. The tables stay in order.
pub map_page_lem :
    (s : Space) (virt phys flags w : ℕ)
    → IsSpace s
    → virt < 2 ^ 32
    → phys < 2 ^ 32
    → w < 2 ^ 32
    → let (done, s') = map_page s virt phys flags in
      (done ≡ (is_aligned virt && is_aligned phys && (not (is_mapped s virt) && has_room s virt)))
      × IsSpace s'
      × (translate s' w
          ≡ (if done && w / 4096 == virt / 4096 then some (phys + w % 4096) else translate s w))
map_page_lem s virt phys flags w v h small l =
    let (d, v', leaves) =
      map_page-leaves s v virt phys flags small (pd_index w) (pt_index w) (omega arith)
        (omega arith) in
    let page : (w / 4096 == virt / 4096)
        ≡ (pd_index w == pd_index virt && pt_index w == pt_index virt) =
      ground arith in
    (
      d,
      v',
      ground (
        arith,
        translate-leaf (map_page s virt phys flags).1 w v',
        translate-leaf s w v,
        leaves,
        page,
        d,
        odd-present_flags flags,
      ),
    )

unmap_page-present :
    (s : Space) (virt : ℕ)
    → (v : IsSpace s) → (there : odd (entry_of s (pd_index virt)) ≡ true)
    → unmap_page s virt ≡ (
        if is_aligned virt && is_mapped s virt
        then (true, written s v (pd_index virt) (pt_index virt) (omega arith) (omega arith) there 0)
        else (false, s))
unfolding unmap_page table_slot
unmap_page-present s virt v there =
    let p = page_entry (active_directory s) s.word (pd_index virt) (pt_index virt) in
    let m = mask-base s v (pd_index virt) (pt_index virt) (omega arith) (omega arith) there in
    let e = leaf-page_entry s v (pd_index virt) (pt_index virt) (omega arith) (omega arith) there in
    rw m (
      ground (
        arith,
        v.on,
        bit_and-offset virt,
        present-odd (entry_of s (pd_index virt)),
        present-odd p,
        e,
      ))

unmap_page-absent :
    (s : Space) (virt : ℕ)
    → odd (entry_of s (pd_index virt)) ≡ false
    → unmap_page s virt ≡ (false, s)
unfolding unmap_page table_slot
unmap_page-absent s virt absent = ground (arith, present-odd (entry_of s (pd_index virt)))

leaf-absent : (s : Space) (i j : ℕ) → odd (entry_of s i) ≡ false → leaf_of s i j ≡ 0
unfolding leaf
leaf-absent s i j absent = ground arith

-- `paging_unmap_page` succeeds exactly for an aligned address of a page that is mapped. Then that
-- page is not mapped, and every other is translated as before; otherwise nothing changes.
pub unmap_page_lem :
    (s : Space) (virt w : ℕ)
    → IsSpace s
    → virt < 2 ^ 32
    → w < 2 ^ 32
    → let (done, s') = unmap_page s virt in
      (done ≡ (is_aligned virt && is_mapped s virt))
      × IsSpace s'
      × (translate s' w ≡ (if done && w / 4096 == virt / 4096 then none else translate s w))
unmap_page_lem s virt w v h l = elim (Bool-cases (odd (entry_of s (pd_index virt)))) [
  | inr absent ↦
      rw (unmap_page-absent s virt absent)
        (ground (arith, leaf-absent s (pd_index virt) (pt_index virt) absent), v, refl)
  | inl there ↦
      let pd = pd_index virt in
      let pt = pt_index virt in
      let eq = unmap_page-present s virt v there in
      elim (Bool-cases (is_aligned virt && is_mapped s virt)) [
        | inr keep ↦ rw eq (rw keep (refl, v, refl))
        | inl drop ↦
            let s' = written s v pd pt (omega arith) (omega arith) there 0 in
            let v' = written-IsSpace s v pd pt (omega arith) (omega arith) there 0 (omega arith) in
            let leaves =
              leaf-written s v pd pt (omega arith) (omega arith) there 0 (pd_index w) (pt_index w)
                (omega arith) (omega arith) in
            let page : (w / 4096 == virt / 4096) ≡ (pd_index w == pd && pt_index w == pt) =
              ground arith in
            rw eq (
              rw drop (
                refl,
                v',
                ground (arith, translate-leaf s' w v', translate-leaf s w v, leaves, page),
              ))
      ]
]
