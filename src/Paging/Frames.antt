-- ===== src/Paging/Frames.antt =====
-- What the operations of kernel/paging.c take from the frames.
use mars_os.Base.{
  ℕ, ◌/◌, ◌≤◌, ◌<◌, ◌≡◌, refl, sym, ◌∙◌, Bool, true, false, not, ◌||◌, ◌==◌, ltb, ltb→lt,
  ltb-false→le, if◌then◌else◌, arith, Bool-cases, Option-cases, inl, inr,
}
use mathlib.Core.Path.{subst}
use Prim.Native.Nat.{bit_and, bit_or}
use mars_os.Pmm.{Pmm, alloc_frame}
use mars_os.Pmm.Valid.{IsValid}
use mars_os.Pmm.Bitmap.{frame_set}
use mars_os.Pmm.Alloc.{Allocated, alloc_frame-Allocated, alloc_frame_exhausted}
use mars_os.Paging.{
  Space, active_directory, map_page, ensure_table, put_entry, alloc_table, slot, pd_index, pt_index,
  is_present, is_user, translate, table_slot,
}
use mars_os.Paging.Ensure.{IsSpace, with_words-IsSpace}

-- A frame manager after some frames were given.
pub record Later (p p' : Pmm) : Type 0 where
  pub same_total : p'.total ≡ p.total
  pub used_le : p.used ≤ p'.used

now : (p : Pmm) → Later p p
now p = record { same_total = refl; used_le = omega arith }

alloc_frame-Later : (p : Pmm) → IsValid p → Later p (alloc_frame p).1
alloc_frame-Later p v = elim (Bool-cases (ltb p.used p.total)) [
  | inl room ↦
      let a = alloc_frame-Allocated p v (ltb→lt _ _ room) in
      record { same_total = a.same_total; used_le = omega (arith, a.counted) }
  | inr full ↦
      subst (λ r. Later p r.1) (sym (alloc_frame_exhausted p (ltb-false→le _ _ full))) (now p)
]

-- Both branches of a test leave such a manager.
either :
    {A : Type 0} (p : Pmm) (t : Bool) (x y : A × Space)
    → Later p x.1.pmm
    → Later p y.1.pmm
    → Later p (if t then x else y).1.pmm
either p true x y l k = l
either p false x y l k = k

alloc_table-Later : (s : Space) → IsValid s.pmm → Later s.pmm (alloc_table s).1.pmm
unfolding alloc_table
alloc_table-Later s v =
    either s.pmm ((alloc_frame s.pmm).0 == 0) _ _ (alloc_frame-Later s.pmm v)
      (alloc_frame-Later s.pmm v)

ensure_table-Later :
    (s : Space) (entry flags : ℕ) → IsValid s.pmm → Later s.pmm (ensure_table s entry flags).1.pmm
unfolding ensure_table
ensure_table-Later s entry flags v =
    either s.pmm (not (is_present (s.word entry))) _ _
      (elim (Option-cases (alloc_table s).0) [
        | inl e ↦ rw e (alloc_table-Later s v)
        | inr (t, e) ↦ rw e (alloc_table-Later s v)
      ])
      (either s.pmm (is_user flags) _ _ (now s.pmm) (now s.pmm))

put_entry-pmm :
    (s : Space) (entry pt phys flags : ℕ) → (put_entry s entry pt phys flags).1.pmm ≡ s.pmm
unfolding put_entry
put_entry-pmm s entry pt phys flags = ground arith

pub map_page-Later :
    (s : Space) (virt phys flags : ℕ)
    → IsValid s.pmm
    → Later s.pmm (map_page s virt phys flags).1.pmm
unfolding map_page
map_page-Later s virt phys flags v =
    let flags' = if is_present flags then flags else bit_or flags 1 in
    let entry = slot (active_directory s) (pd_index virt) in
    let (there, s') = ensure_table s entry flags' in
    let made = ensure_table-Later s entry flags' v in
    either s.pmm (not s.is_enabled) _ _ (now s.pmm) (
      either s.pmm (not (bit_and virt 0xFFF == 0) || not (bit_and phys 0xFFF == 0)) _ _ (now s.pmm)
        (either s.pmm there (put_entry s' entry (pt_index virt) phys flags') (false, s')
          (subst (Later s.pmm) (sym (put_entry-pmm s' entry (pt_index virt) phys flags')) made)
          made))

still_held :
    (p : Pmm) (i : ℕ)
    → Allocated p (alloc_frame p).0 (alloc_frame p).1
    → frame_set p i ≡ true
    → frame_set (alloc_frame p).1 i ≡ true
still_held p i a h = elim (Bool-cases ((alloc_frame p).0 / 4096 == i)) [
  | inl new ↦ a.now_used i ∙ rw new refl
  | inr old ↦ a.now_used i ∙ (rw old h)
]

-- A space whose manager gave a frame away.
pub allocated-IsSpace :
    (s : Space)
    → IsSpace s
    → s.pmm.used < s.pmm.total
    → IsSpace (record s { pmm = (alloc_frame s.pmm).1 })
allocated-IsSpace s v room =
    let a = alloc_frame-Allocated s.pmm v.pmm_valid room in
    let t = v.tables in
    with_words-IsSpace s (alloc_frame s.pmm).1 s.word v.on a.valid record {
      aligned = t.aligned;
      dir_lt = t.dir_lt;
      dir_held = still_held s.pmm (active_directory s / 4096) a t.dir_held;
      entry_lt = t.entry_lt;
      table_held = λ i g o. still_held s.pmm _ a (t.table_held i g o);
      table_ne = t.table_ne;
      table_inj = t.table_inj;
      page_lt = t.page_lt;
    }

-- The translation does not look at the frame manager.
pub translate-pmm :
    (s : Space) (p : Pmm) (w : ℕ) → translate (record s { pmm = p }) w ≡ translate s w
unfolding translate table_slot active_directory
translate-pmm s p w = refl
