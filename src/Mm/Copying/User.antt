-- ===== src/Mm/Copying/User.antt =====
-- `copy_to_user` and `copy_from_user`: permissions, address space and page frames together.
use weenix_kernel_implementa.Common.{
  ℕ, suc, ◌+◌, ◌-◌, ◌<◌, ◌≤◌, ◌≡◌, ◌⊎◌, ap, ◌∙◌, true, false, none, ◌==◌, ltb, if◌then◌else◌, add32,
  sub32, u32_mod, ok, panic, arith,
}
use weenix_kernel_implementa.Vm.Layout.{Layout}
use weenix_kernel_implementa.Vm.Vmmap.{Vmmap, vmmap_lookup}
use weenix_kernel_implementa.Vm.Access.Laws.{range_perm-granted}
use weenix_kernel_implementa.Mm.Frames.{Memory}
use weenix_kernel_implementa.Mm.Frames.Resident.{Touched}
use weenix_kernel_implementa.Mm.Lookup.{MmEnv, Free}
use weenix_kernel_implementa.Mm.Copying.{finished, memcpy, copy_from_user, copy_to_user}
use weenix_kernel_implementa.Mm.Copying.Single.{Present, Present-Stored}
use weenix_kernel_implementa.Mm.Copying.Pages.{
  memcpy_back, memcpy_out, vmmap_write-Stored, vmmap_read_one, vmmap_read-panics,
}

-- What PAGE_OFFSET and ADDR_TO_PN have to do with each other: as long as an offset stays within the
-- page, the address has the same page number.
pub record PageLaws (page_offset : ℕ → ℕ) (l : Layout) : Type 0 where
  pub within : (a n : ℕ) → page_offset a + n < l.page_size → l.addr_to_pn (a + n) ≡ l.addr_to_pn a

module _ (mm : MmEnv) (page_offset : ℕ → ℕ) (l : Layout) (drop : Free mm) (fuel : ℕ)
    (m : Vmmap) where
  -- Bytes that are copied to a range of user memory and then copied back are the same.
  -- PAGE_OFFSET and ADDR_TO_PN agree on what a page is; the range has at least one byte, it ends
  -- before the last byte of the page that it begins in, so that its end address is in that page
  -- too, in 32 bits with a page to spare; and the page is resident, in a frame that is not busy, of
  -- an area that may be read and written. Then both calls return without an error. The buffer that
  -- is read into gets the bytes and keeps what lies beyond them; the write changes no other frame,
  -- no byte of that frame outside the range, and no object; and the read changes no frame, no
  -- object, not which frame holds a page, and not the free frames.
  pub copy_to_user-copy_from_user :
      (uaddr n f : ℕ) (kaddr out : ℕ → ℕ) (s : Memory mm.Env)
      → PageLaws page_offset l
      → (p : Present mm page_offset l drop fuel m (l.addr_to_pn uaddr) f s)
      → p.area.vma_prot.read ≡ true
      → p.area.vma_prot.write ≡ true
      → 0 < n
      → page_offset uaddr + n < l.page_size
      → uaddr + n + l.page_size ≤ u32_mod
      → (s1 : Memory mm.Env) × (s2 : Memory mm.Env) × (back : ℕ → ℕ) × (copy_to_user mm page_offset
            l drop
            (suc fuel)
            m
            uaddr
            kaddr
            n
            s
          ≡ ok (finished tt s1))
        × (copy_from_user mm page_offset l drop (suc fuel) m out uaddr n s1 ≡ ok (finished back s2))
        × ((i : ℕ) → back i ≡ (if ltb i n then kaddr i else out i))
        × ((i : ℕ)
            → (i < page_offset uaddr) ⊎ (page_offset uaddr + n ≤ i)
            → (s1.frames f).pf_data i ≡ (s.frames f).pf_data i)
        × ((j : ℕ) → (j == f) ≡ false → s1.frames j ≡ s.frames j)
        × (s1.objs ≡ s.objs)
        × Touched s1 s2
  unfolding copy_to_user copy_from_user
  copy_to_user-copy_from_user uaddr n f kaddr out s laws p readable writable some_bytes inside
        fits =
      let pn = l.addr_to_pn uaddr in
      let at = page_offset uaddr in
      let short : n ≤ l.page_size = omega arith in
      let end : add32 uaddr n ≡ uaddr + n = omega arith in
      let last : add32 (sub32 uaddr 1) n ≡ uaddr + (n - 1) = omega arith in
      let end_page : l.addr_to_pn (add32 uaddr n) ≡ pn =
        ap l.addr_to_pn end ∙ laws.within uaddr n inside in
      let last_page : l.addr_to_pn (add32 (sub32 uaddr 1) n) ≡ pn =
        ap l.addr_to_pn last ∙ laws.within uaddr (n - 1) (omega arith) in
      let may_write =
        range_perm-granted l m uaddr n p.area record { read = false; write = true; exec = false }
          p.covered (ground arith) some_bytes short fits in
      let may_read =
        range_perm-granted l m uaddr n p.area record { read = true; write = false; exec = false }
          p.covered (ground arith) some_bytes short fits in
      let (s1, written, w) =
        vmmap_write-Stored mm page_offset l drop fuel m uaddr kaddr n f s
          (ground (arith, last_page)) p in
      let (s2, got, t) =
        vmmap_read_one mm page_offset l drop fuel m uaddr out n f s1 (ground (arith, end_page))
          (Present-Stored mm page_offset l drop fuel m pn f f _ s s1 w p) in
      (
        s1,
        s2,
        memcpy out 0 (memcpy (s.frames f).pf_data at kaddr 0 n) at n,
        rw may_write written,
        rw may_read (got ∙ ap (λ d. ok (finished (memcpy out 0 d at n) s2)) w.contents),
        memcpy_back out (s.frames f).pf_data kaddr at n,
        λ i out_. ap (λ d. d i) w.contents ∙ memcpy_out (s.frames f).pf_data at kaddr 0 n i out_,
        w.others,
        w.objs,
        t,
      )

  -- A range of at least one byte and at most a page, in 32 bits with a page to spare, whose first page
  -- is resident in a frame that is not busy, of an area that may be read; its end address is in the
  -- next page, as when it ends with the last byte of its own, and that page has no area. Then
  -- `copy_from_user` stops the kernel.
  pub copy_from_user-panics :
      (uaddr n f : ℕ) (kaddr : ℕ → ℕ) (s : Memory mm.Env)
      (p : Present mm page_offset l drop fuel m (l.addr_to_pn uaddr) f s)
      → p.area.vma_prot.read ≡ true
      → 0 < n
      → n ≤ l.page_size
      → uaddr + n + l.page_size ≤ u32_mod
      → l.addr_to_pn (uaddr + n) ≡ l.addr_to_pn uaddr + 1
      → vmmap_lookup m (l.addr_to_pn uaddr + 1) ≡ none
      → copy_from_user mm page_offset l drop (suc fuel) m kaddr uaddr n s ≡ panic
  unfolding copy_from_user
  copy_from_user-panics uaddr n f kaddr s p readable some_bytes short fits next hole =
      let end : add32 uaddr n ≡ uaddr + n = omega arith in
      let end_page : l.addr_to_pn (add32 uaddr n) ≡ l.addr_to_pn uaddr + 1 =
        ap l.addr_to_pn end ∙ next in
      let may_read =
        range_perm-granted l m uaddr n p.area record { read = true; write = false; exec = false }
          p.covered (ground arith) some_bytes short fits in
      rw may_read (vmmap_read-panics mm page_offset l drop fuel m uaddr kaddr n f s end_page p hole)
