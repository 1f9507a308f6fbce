-- ===== src/Vm/Vmmap/Remove/Pieces.antt =====
-- What is left of one area, case by case.
use weenix_kernel_implementa.Common.{
  ℕ, ◌≤◌, ◌<◌, ◌≡◌, ◌⊎◌, inl, inr, refl, ◌&&◌, Option, none, some, List, [], ◌∷◌, ◌++◌, ltb, leb,
  if◌then◌else◌, add32, sub32, u32_mod, ok, All, arith, Bool-cases,
}
use weenix_kernel_implementa.Vm.Layout.{Prot, MapFlags}
use weenix_kernel_implementa.Vm.Mmobj.{MmobjOps}
use weenix_kernel_implementa.Vm.Vmmap.{Vmarea, lookup_area, obj_page}
use weenix_kernel_implementa.Vm.Vmmap.Valid.{Ascending, Ascending-mono}
use weenix_kernel_implementa.Vm.Vmmap.Remove.{split_area, drop_area, remove_area}

-- What a page maps to: a page of the object, and how it may be used.
pub record View : Type 0 where
  pub page : ℕ
  pub prot : Prot
  pub flags : MapFlags

abbrev pub view_of : ℕ → Option Vmarea → Option View
view_of vfn none = none
view_of vfn (some a) =
    some (record { page = obj_page a vfn; prot = a.vma_prot; flags = a.vma_flags })

abbrev pub view_areas : ℕ → List Vmarea → Option View
view_areas vfn areas = view_of vfn (lookup_area vfn areas)

abbrev pub HasObj : Vmarea → Type 0
HasObj a = (o : ℕ) × (a.vma_obj ≡ some o)

-- `kept` may stand in place of `iter` when the pages from `lo` to `sum` are unmapped.
pub record Pieces (lo sum : ℕ) (iter : Vmarea) (kept : List Vmarea) : Type 0 where
  pub views :
      (v : ℕ) (rest : List Vmarea)
      → view_areas v (kept ++ rest)
        ≡ (if leb lo v && ltb v sum then view_areas v rest else view_areas v (iter ∷ rest))
  pub ascending :
      (from high : ℕ) (rest : List Vmarea)
      → from ≤ iter.vma_start
      → iter.vma_end ≤ high
      → Ascending iter.vma_end high rest
      → Ascending from high (kept ++ rest)
  pub objects : All HasObj kept

-- The page of the object does not change when the start of an area and its offset move together.
obj_page-shift :
    (off start sum v : ℕ)
    → start ≤ sum
    → sum < u32_mod
    → add32 (sub32 v sum) (sub32 (add32 off sum) start) ≡ add32 (sub32 v start) off
obj_page-shift off start sum v le fits = omega arith

module _ (lo sum : ℕ) (le : lo ≤ sum) (fits : sum < u32_mod) (iter : Vmarea) where
  Pieces-whole :
      (iter.vma_end ≤ lo) ⊎ (sum ≤ iter.vma_start)
      → HasObj iter
      → iter.vma_start < iter.vma_end
      → Pieces lo sum iter (iter ∷ [])
  unfolding lookup_area
  Pieces-whole out obj ne = record {
    views = λ v rest. ground arith;
    ascending = λ from high rest p q r. (p, ne, q, r);
    objects = (obj, tt);
  }

  -- Case 2.
  Pieces-front :
      HasObj iter
      → iter.vma_start < lo
      → lo < iter.vma_end
      → iter.vma_end ≤ sum
      → Pieces lo sum iter (record iter { vma_end = lo } ∷ [])
  unfolding lookup_area obj_page
  Pieces-front obj a b c = record {
    views = λ v rest. ground arith;
    ascending = λ from high rest p q r.
        (p, a, omega arith, Ascending-mono lo iter.vma_end high rest (omega arith) r);
    objects = (obj, tt);
  }

  -- Case 3.
  Pieces-back :
      HasObj iter
      → lo ≤ iter.vma_start
      → iter.vma_start < sum
      → sum < iter.vma_end
      → Pieces lo sum iter (
          record iter { vma_off = sub32 (add32 iter.vma_off sum) iter.vma_start; vma_start = sum }
          ∷ [])
  unfolding lookup_area obj_page
  Pieces-back obj a b c = record {
    views = λ v rest. ground (arith, obj_page-shift iter.vma_off iter.vma_start sum v);
    ascending = λ from high rest p q r. (omega arith, c, q, r);
    objects = (obj, tt);
  }

  -- Case 4.
  Pieces-none :
      iter.vma_start < iter.vma_end
      → lo ≤ iter.vma_start
      → iter.vma_end ≤ sum
      → Pieces lo sum iter []
  unfolding lookup_area
  Pieces-none ne a b = record {
    views = λ v rest. ground arith;
    ascending = λ from high rest p q r. Ascending-mono from iter.vma_end high rest (omega arith) r;
    objects = tt;
  }

  -- Case 1.
  Pieces-split_area :
      (mm : MmobjOps) (map_addr o : ℕ) (st : mm.Store)
      → iter.vma_start < lo
      → sum < iter.vma_end
      → Pieces lo sum iter (split_area mm map_addr lo sum iter o st).0
  unfolding split_area lookup_area obj_page
  Pieces-split_area mm map_addr o st a b = record {
    views = λ v rest. ground (arith, obj_page-shift iter.vma_off iter.vma_start sum v);
    ascending = λ from high rest p q r. (p, a, omega arith, (le, b, q, r));
    objects = ((_, refl), ((_, refl), tt));
  }

  -- Every case of the body of the loop.
  pub remove_area-Pieces :
      (mm : MmobjOps) (map_addr : ℕ) (st : mm.Store)
      → HasObj iter
      → iter.vma_start < iter.vma_end
      → (kept : List Vmarea) × (st' : mm.Store) × (remove_area mm map_addr lo sum iter st
          ≡ ok (kept, st'))
        × Pieces lo sum iter kept
  unfolding remove_area
  remove_area-Pieces mm map_addr st (o, e) ne = elim (Bool-cases (ltb iter.vma_start lo)) [
    | inl below ↦ elim (Bool-cases (ltb sum iter.vma_end)) [
      | inl inside ↦ (
        (split_area mm map_addr lo sum iter o st).0,
        (split_area mm map_addr lo sum iter o st).1,
        rw (below, inside, e) refl,
        Pieces-split_area mm map_addr o st (ground arith) (ground arith),
      )
      | inr past ↦ elim (Bool-cases (ltb lo iter.vma_end)) [
        | inl front ↦
            (_, st, ground arith, Pieces-front (o, e) (ground arith) (ground arith) (ground arith))
        | inr whole ↦ (_, st, ground arith, Pieces-whole (inl (ground arith)) (o, e) ne)
      ]
    ]
    | inr from ↦ elim (Bool-cases (leb iter.vma_end sum)) [
      | inl covered ↦ (
        (drop_area mm iter o st).0,
        (drop_area mm iter o st).1,
        rw (from, covered, e) refl,
        Pieces-none ne (ground arith) (ground arith),
      )
      | inr past ↦ elim (Bool-cases (ltb iter.vma_start sum)) [
        | inl back ↦
            (_, st, ground arith, Pieces-back (o, e) (ground arith) (ground arith) (ground arith))
        | inr whole ↦ (_, st, ground arith, Pieces-whole (inr (ground arith)) (o, e) ne)
      ]
    ]
  ]
