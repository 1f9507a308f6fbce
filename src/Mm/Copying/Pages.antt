-- ===== src/Mm/Copying/Pages.antt =====
-- `vmmap_write` and `vmmap_read` over one page and over two, where the pages are resident.
use weenix_kernel_implementa.Common.{
  ℕ, suc, ◌+◌, ◌-◌, ◌<◌, ◌≤◌, ltb→lt, ◌≡◌, ◌⊎◌, refl, ap, ◌∙◌, inl, inr, true, false, none, ◌==◌,
  ltb, leb, if◌then◌else◌, add32, sub32, ok, panic, Bool-cases, arith,
}
use weenix_kernel_implementa.Vm.Layout.{Layout}
use weenix_kernel_implementa.Vm.Vmmap.{Vmmap, vmmap_lookup}
use weenix_kernel_implementa.Mm.Frames.{Memory}
use weenix_kernel_implementa.Mm.Frames.Resident.{Touched}
use weenix_kernel_implementa.Mm.Lookup.{MmEnv, page, Free}
use weenix_kernel_implementa.Mm.Copying.{
  finished, memcpy, user_frame, with_frame, store, read_pages, write_pages, vmmap_read, vmmap_write,
}
use weenix_kernel_implementa.Mm.Copying.Single.{
  Stored, Present, user_frame-Present, store-Stored, frame_of-Touched, Present-Touched,
  Present-Stored,
}

memcpy_in :
    (dst : ℕ → ℕ) (at : ℕ) (src : ℕ → ℕ) (from n i j t : ℕ)
    → i < n
    → at + i ≡ j
    → from + i ≡ t
    → memcpy dst at src from n j ≡ src t
memcpy_in dst at src from n i j t below here there =
    let same : from + j - at ≡ t = omega arith in
    let lower : leb at j ≡ true = ground arith in
    let upper : ltb j (at + n) ≡ true = ground arith in rw (lower, upper, same) refl

memcpy_past :
    (dst : ℕ → ℕ) (at : ℕ) (src : ℕ → ℕ) (from n j : ℕ)
    → at + n ≤ j
    → memcpy dst at src from n j ≡ dst j
memcpy_past dst at src from n j beyond =
    let upper : ltb j (at + n) ≡ false = ground arith in
    let lower : leb at j ≡ true = ground arith in rw (lower, upper) refl

pub memcpy_out :
    (dst : ℕ → ℕ) (at : ℕ) (src : ℕ → ℕ) (from n j : ℕ)
    → (j < at) ⊎ (at + n ≤ j)
    → memcpy dst at src from n j ≡ dst j
memcpy_out dst at src from n j (inl before) =
    let lower : leb at j ≡ false = ground arith in rw lower refl
memcpy_out dst at src from n j (inr beyond) = memcpy_past dst at src from n j beyond

-- What is written at an offset is read back from it.
pub memcpy_back :
    (out old buf : ℕ → ℕ) (at n i : ℕ)
    → memcpy out 0 (memcpy old at buf 0 n) at n i ≡ (if ltb i n then buf i else out i)
memcpy_back out old buf at n i = elim (Bool-cases (ltb i n)) [
  | inl within ↦
      let below = ltb→lt i n within in
      rw within (
        memcpy_in out 0 (memcpy old at buf 0 n) at n i i (at + i) below (omega arith) refl
        ∙ memcpy_in old at buf 0 n i (at + i) i below refl (omega arith))
  | inr beyond ↦ rw beyond (memcpy_past out 0 (memcpy old at buf 0 n) at n i (ground arith))
]

module _ (mm : MmEnv) (page_offset : ℕ → ℕ) (l : Layout) (drop : Free mm) (fuel : ℕ)
    (m : Vmmap) where
  -- A page is looked up, and the bytes are stored in its frame.
  pub put_page :
      (at : ℕ) (buf : ℕ → ℕ) (from n pn f : ℕ) (s : Memory mm.Env)
      → Present mm page_offset l drop fuel m pn f s
      → (s1 : Memory mm.Env) × (s' : Memory mm.Env) × (user_frame mm page_offset l drop
            (suc fuel)
            m
            pn
            s
          ≡ ok (page f, s1))
        × (store mm page_offset l drop (suc fuel) m at buf from n f s1 ≡ ok s')
        × Stored f (memcpy (s.frames f).pf_data at buf from n) s s'
  put_page at buf from n pn f s p =
      let (s1, got, t) = user_frame-Present mm page_offset l drop fuel m pn f s p in
      let p1 = Present-Touched mm page_offset l drop fuel m pn f s s1 t p in
      let (s', stored, r) = store-Stored mm page_offset l drop fuel m at buf from n pn f s1 p1 in
      (
        s1,
        s',
        got,
        stored,
        record {
          contents = r.contents ∙ ap (λ g. memcpy (g f).pf_data at buf from n) t.frames;
          idle = r.idle;
          others = λ j differs. r.others j differs ∙ ap (λ g. g j) t.frames;
          pages = λ size o q. r.pages size o q ∙ frame_of-Touched size o q s s1 t;
          objs = r.objs ∙ t.objs;
        },
      )

  pub vmmap_write-Stored :
      (vaddr : ℕ) (buf : ℕ → ℕ) (count f : ℕ) (s : Memory mm.Env)
      → (l.addr_to_pn vaddr == l.addr_to_pn (add32 (sub32 vaddr 1) count)) ≡ true
      → Present mm page_offset l drop fuel m (l.addr_to_pn vaddr) f s
      → (s' : Memory mm.Env) × (vmmap_write mm page_offset l drop (suc fuel) m vaddr buf count s
          ≡ ok (finished tt s'))
        × Stored f (memcpy (s.frames f).pf_data (page_offset vaddr) buf 0 count) s s'
  unfolding vmmap_write with_frame
  vmmap_write-Stored vaddr buf count f s one p =
      let (s1, s', got, stored, r) =
        put_page (page_offset vaddr) buf 0 count (l.addr_to_pn vaddr) f s p in
      (s', rw (one, got, with_frame, stored) refl, r)

  pub vmmap_read_one :
      (vaddr : ℕ) (buf : ℕ → ℕ) (count f : ℕ) (s : Memory mm.Env)
      → (l.addr_to_pn vaddr == l.addr_to_pn (add32 vaddr count)) ≡ true
      → Present mm page_offset l drop fuel m (l.addr_to_pn vaddr) f s
      → (s' : Memory mm.Env) × (vmmap_read mm page_offset l drop (suc fuel) m vaddr buf count s
          ≡ ok (finished (memcpy buf 0 (s.frames f).pf_data (page_offset vaddr) count) s'))
        × Touched s s'
  unfolding vmmap_read with_frame
  vmmap_read_one vaddr buf count f s one p =
      let (s1, got, t) =
        user_frame-Present mm page_offset l drop fuel m (l.addr_to_pn vaddr) f s p in
      (
        s1,
        rw (one, got, with_frame)
            (ap (λ g. ok (finished (memcpy buf 0 (g f).pf_data (page_offset vaddr) count) s1))
              t.frames),
        t,
      )

  -- A write over the end of a page, where the two pages are resident in two frames that are not busy:
  -- it returns, the rest of the first page holds the first bytes of the buffer, and the second page
  -- the next ones up to the last byte of the range, which keeps what it was. No other frame changes.
  pub vmmap_write-last_byte :
      (vaddr : ℕ) (buf : ℕ → ℕ) (count f g : ℕ) (s : Memory mm.Env)
      → l.addr_to_pn (add32 (sub32 vaddr 1) count) ≡ l.addr_to_pn vaddr + 1
      → Present mm page_offset l drop fuel m (l.addr_to_pn vaddr) f s
      → Present mm page_offset l drop fuel m (l.addr_to_pn vaddr + 1) g s
      → (g == f) ≡ false
      → (s' : Memory mm.Env) × (vmmap_write mm page_offset l drop (suc fuel) m vaddr buf count s
          ≡ ok (finished tt s'))
        × ((i : ℕ)
            → page_offset vaddr + i < l.page_size
            → (s'.frames f).pf_data (page_offset vaddr + i) ≡ buf i)
        × ((i : ℕ)
            → i < page_offset (add32 (sub32 vaddr 1) count)
            → (s'.frames g).pf_data i ≡ buf (l.page_size - page_offset vaddr + i))
        × ((s'.frames g).pf_data (page_offset (add32 (sub32 vaddr 1) count))
            ≡ (s.frames g).pf_data (page_offset (add32 (sub32 vaddr 1) count)))
        × ((j : ℕ) → (j == f) ≡ false → (j == g) ≡ false → s'.frames j ≡ s.frames j)
  unfolding vmmap_write with_frame write_pages
  vmmap_write-last_byte vaddr buf count f g s two p q differ =
      let pn = l.addr_to_pn vaddr in
      let at = page_offset vaddr in
      let head = l.page_size - at in
      let size = page_offset (add32 (sub32 vaddr 1) count) in
      let (s1, s2, got, stored, r) = put_page at buf 0 head pn f s p in
      let (s3, s4, got2, stored2, r2) =
        put_page 0 buf head size (pn + 1) g s2
          (Present-Stored mm page_offset l drop fuel m (pn + 1) g f _ s s2 r q) in
      let apart : (f == g) ≡ false = ground arith in
      let several : (pn == pn + 1) ≡ false = ground arith in
      let upward : leb pn (pn + 1) ≡ true = ground arith in
      let one : l.addr_to_pn (add32 (sub32 vaddr 1) count) - pn ≡ 1 = omega (arith, two) in
      (
        s4,
        rw
            (
              two, several, upward, got, with_frame, stored, one, write_pages, got2, with_frame,
              stored2,
            )
            refl,
        λ i below.
            ap (λ x. x.pf_data (at + i)) (r2.others f apart)
            ∙ ap (λ d. d (at + i)) r.contents
            ∙ memcpy_in (s.frames f).pf_data at buf 0 head i (at + i) i (omega arith) refl
                (omega arith),
        λ i below.
            ap (λ d. d i) r2.contents
            ∙ memcpy_in (s2.frames g).pf_data 0 buf head size i i (head + i) below (omega arith)
                refl,
        ap (λ d. d size) r2.contents
            ∙ (memcpy_past (s2.frames g).pf_data 0 buf head size size (omega arith)
                ∙ ap (λ x. x.pf_data size) (r.others g differ)),
        λ j a b. r2.others j b ∙ r.others j a,
      )

  -- The page after the first one has no area.
  pub vmmap_read-panics :
      (vaddr : ℕ) (buf : ℕ → ℕ) (count f : ℕ) (s : Memory mm.Env)
      → l.addr_to_pn (add32 vaddr count) ≡ l.addr_to_pn vaddr + 1
      → Present mm page_offset l drop fuel m (l.addr_to_pn vaddr) f s
      → vmmap_lookup m (l.addr_to_pn vaddr + 1) ≡ none
      → vmmap_read mm page_offset l drop (suc fuel) m vaddr buf count s ≡ panic
  unfolding vmmap_read with_frame read_pages user_frame
  vmmap_read-panics vaddr buf count f s two p hole =
      let pn = l.addr_to_pn vaddr in
      let (s1, got, t) = user_frame-Present mm page_offset l drop fuel m pn f s p in
      let several : (pn == pn + 1) ≡ false = ground arith in
      let upward : leb pn (pn + 1) ≡ true = ground arith in
      let one : l.addr_to_pn (add32 vaddr count) - pn ≡ 1 = omega (arith, two) in
      rw (two, several, upward, got, with_frame, one, read_pages, hole) refl
