-- ===== src/Proc/Kmutex/Exclusion/Switches.antt =====
-- Giving the processor away and `kmutex_unlock` keep the invariant of mutual exclusion.
use weenix_kernel_implementa.Common.{
  ℕ, ◌≡◌, refl, sym, ap, ◌∙◌, subst, inl, inr, false, none, some, List, [], ◌∷◌, ◌++◌, ◌==◌, update,
  Exec, ok, reverse_onto, reverse_onto-append, Option-cases, Bool-cases, arith,
}
use weenix_kernel_implementa.Proc.Kernel.{Kernel}
use weenix_kernel_implementa.Proc.Sched.{switched, sched_switch, sched_make_runnable}
use weenix_kernel_implementa.Proc.Sched.Fifo.{fifo, has, has-fifo, has-append}
use weenix_kernel_implementa.Proc.Sched.Invariant.{
  IsQueued, made_runnable, sched_make_runnable-ok, made_runnable-IsQueued,
}
use weenix_kernel_implementa.Proc.Sched.Wakeup.{list-nil_of_fifo}
use weenix_kernel_implementa.Proc.Sched.Switching.{Switched, sched_switch-Switched}
use weenix_kernel_implementa.Proc.Kmutex.Laws.{Ready, HandedOver}
use weenix_kernel_implementa.Proc.Kmutex.Exclusion.{Phase, outside, IsExclusive}
use weenix_kernel_implementa.Proc.Kmutex.Exclusion.Locks.{set_holder, set_holder-Ready}

module _ (m : ℕ) where
  snoc-cons : (l : List ℕ) (x : ℕ) → (y : ℕ) × (rest : List ℕ) × (l ++ x ∷ [] ≡ y ∷ rest)
  snoc-cons [] x = (x, [], refl)
  snoc-cons (y ∷ ys) x = (y, ys ++ x ∷ [], refl)

  -- The invariant speaks of the mutex and of those who wait for it only.
  same_waitq-IsExclusive :
      (k k' : Kernel) (phase : ℕ → Phase)
      → Ready m k'
      → k'.mutexes m ≡ k.mutexes m
      → fifo (k.mutexes m).km_waitq k' ≡ fifo (k.mutexes m).km_waitq k
      → IsExclusive m (record { kernel = k; phase = phase })
      → IsExclusive m (record { kernel = k'; phase = phase })
  same_waitq-IsExclusive k k' phase ready same_m same_f i =
      let q = (k.mutexes m).km_waitq in
      let same_q : (k'.mutexes m).km_waitq ≡ q = ap (λ x. x.km_waitq) same_m in
      let same_h : (k'.mutexes m).km_holder ≡ (k.mutexes m).km_holder =
        ap (λ x. x.km_holder) same_m in
      let on_queue : (u : ℕ) → has u (fifo (k'.mutexes m).km_waitq k') ≡ has u (fifo q k) =
        λ u. ap (λ p. has u (fifo p k')) same_q ∙ ap (λ l. has u l) same_f in
      record {
        ready = ready;
        lock = record {
          free = λ freed.
              ap (λ p. (k'.queues p).tq_list) same_q
              ∙ list-nil_of_fifo q k'
                  (same_f ∙ ap (λ l. reverse_onto l []) (i.lock.free (sym same_h ∙ freed)));
          apart = λ u e.
              sym (has-fifo u (k'.mutexes m).km_waitq k')
              ∙ on_queue u
              ∙ has-fifo u q k
              ∙ i.lock.apart u (sym same_h ∙ e);
        };
        holds = λ u e. same_h ∙ i.holds u e;
        listed = λ u e. elim (i.listed u e) [
          | inl queued ↦ inl (on_queue u ∙ queued)
          | inr handed ↦ inr (same_h ∙ handed)
        ];
      }

  -- The current thread goes to the end of the run queue and another one runs.
  yields-Switched :
      (intrs : List (Kernel → Exec Kernel)) (k k1 k' : Kernel)
      → Ready m k
      → sched_make_runnable k.curthr k ≡ ok k1
      → sched_switch intrs k1 ≡ ok (switched k')
      → (t : ℕ) × (rest : List ℕ) × Switched t rest (made_runnable k.curthr k) k'
  yields-Switched intrs k k1 k' ready made went =
      let c = k.curthr in
      let back = made_runnable c k in
      let same1 : back ≡ k1 = let e = sched_make_runnable-ok c k ready.running in cc in
      let (t, rest, e) = snoc-cons (fifo k.runq k) c in
      let runnable : fifo back.runq back ≡ t ∷ rest =
        ground (arith, reverse_onto-append (k.queues k.runq).tq_list (c ∷ [])) ∙ e in
      let (k2, went2, s) =
        sched_switch-Switched intrs back t rest
          (made_runnable-IsQueued c k ready.queued ready.running) runnable in
      let same2 : k2 ≡ k' = cc in (t, rest, subst (Switched t rest back) same2 s)

  -- It changes neither the mutex nor those who wait for it.
  pub yields-waitq :
      (intrs : List (Kernel → Exec Kernel)) (k k1 k' : Kernel)
      → Ready m k
      → sched_make_runnable k.curthr k ≡ ok k1
      → sched_switch intrs k1 ≡ ok (switched k')
      → (k'.mutexes m ≡ k.mutexes m)
        × (fifo (k.mutexes m).km_waitq k' ≡ fifo (k.mutexes m).km_waitq k)
        × Ready m k'
  yields-waitq intrs k k1 k' ready made went =
      let (t, rest, s') = yields-Switched intrs k k1 k' ready made went in
      let same_m : k'.mutexes m ≡ k.mutexes m = ap (λ ms. ms m) s'.mutexes in
      let same_q : (k'.mutexes m).km_waitq ≡ (k.mutexes m).km_waitq = ap (λ x. x.km_waitq) same_m in
      (
        same_m,
        s'.others (k.mutexes m).km_waitq ready.waitq ∙ ground (arith, ready.waitq),
        record {
          queued = s'.queued;
          waitq = λ x. ready.waitq (sym same_q ∙ x ∙ s'.same_runq);
          running = ap (λ u. (k'.threads u).kt_wchan) s'.current ∙ s'.running;
        },
      )

  pub yields-IsExclusive :
      (intrs : List (Kernel → Exec Kernel)) (k k1 k' : Kernel) (phase : ℕ → Phase)
      → sched_make_runnable k.curthr k ≡ ok k1
      → sched_switch intrs k1 ≡ ok (switched k')
      → IsExclusive m (record { kernel = k; phase = phase })
      → IsExclusive m (record { kernel = k'; phase = phase })
  yields-IsExclusive intrs k k1 k' phase made went i =
      let (same_m, same_f, ready) = yields-waitq intrs k k1 k' i.ready made went in
      same_waitq-IsExclusive k k' phase ready same_m same_f i

  -- A thread on no queue has no wait channel.
  free_of_lists :
      (t : ℕ) (k : Kernel)
      → IsQueued k
      → ((p : ℕ) → has t (fifo p k) ≡ false)
      → (k.threads t).kt_wchan ≡ none
  free_of_lists t k i out = elim (Option-cases (k.threads t).kt_wchan) [
    | inl free ↦ free
    | inr (p, e) ↦ absurd (ground (arith, out p, has-fifo t p k, i.listed p t))
  ]

  handed-Ready :
      (k k' : Kernel) (ready : Ready m k) (t : ℕ) (rest : List ℕ)
      → fifo (k.mutexes m).km_waitq k ≡ t ∷ rest
      → HandedOver m k ready t rest k'
      → Ready m k'
  unfolding has
  handed-Ready k k' ready t rest e h =
      let c = k.curthr in
      let q = (k.mutexes m).km_waitq in
      let out : (p : ℕ) → has c (fifo p k) ≡ false =
        λ p. ground (arith, has-fifo c p k, ready.queued.listed p c, ready.running) in
      let waiters : has c (t ∷ rest) ≡ false = ap (λ l. has c l) (sym e) ∙ out q in
      let out' : (p : ℕ) → has c (fifo p k') ≡ false = λ p. elim (Bool-cases (p == q)) [
        | inl on_it ↦
            let eq : p ≡ q = ground arith in
            ap (λ x. has c (fifo x k')) eq ∙ ap (λ l. has c l) h.left ∙ ground (arith, waiters)
        | inr off ↦ elim (Bool-cases (p == k.runq)) [
          | inl runs ↦
              let eq : p ≡ k.runq = ground arith in
              ap (λ x. has c (fifo x k')) eq
              ∙ ap (λ l. has c l) h.runnable
              ∙ ground (arith, has-append c (fifo k.runq k) (t ∷ []), out k.runq, waiters)
          | inr rest_of ↦
              ap (λ l. has c l) (h.others p (λ x. ground arith) (λ x. ground arith)) ∙ out p
        ]
      ] in
      record {
        queued = h.queued;
        waitq = λ x. ready.waitq (sym h.same_waitq ∙ x ∙ h.same.0);
        running = ap (λ u. (k'.threads u).kt_wchan) h.same.1 ∙ free_of_lists c k' h.queued out';
      }

  pub unlocked-IsExclusive :
      (k : Kernel) (phase : ℕ → Phase)
      → (k.mutexes m).km_holder ≡ some k.curthr
      → fifo (k.mutexes m).km_waitq k ≡ []
      → IsExclusive m (record { kernel = k; phase = phase })
      → IsExclusive m
          (record { kernel = set_holder m none k; phase = update phase k.curthr outside })
  unfolding has
  unlocked-IsExclusive k phase mine empty i = record {
    ready = set_holder-Ready m none k i.ready;
    lock = record {
      free = λ e. ground (arith, list-nil_of_fifo (k.mutexes m).km_waitq k empty);
      apart = λ u e. absurd (ground arith);
    };
    holds = λ t e. elim (Bool-cases (t == k.curthr)) [
      | inl same ↦ absurd (ground arith)
      | inr other ↦ absurd (ground (arith, i.holds t))
    ];
    listed = λ t e. elim (Bool-cases (t == k.curthr)) [
      | inl same ↦ absurd (ground arith)
      | inr other ↦ elim (i.listed t (ground arith)) [
        | inl queued ↦ absurd (ground (arith, queued, ap (λ l. has t l) empty))
        | inr handed ↦ absurd (ground arith)
      ]
    ];
  }

  pub handed-IsExclusive :
      (k k' : Kernel) (phase : ℕ → Phase) (t : ℕ) (rest : List ℕ)
      → (k.mutexes m).km_holder ≡ some k.curthr
      → fifo (k.mutexes m).km_waitq k ≡ t ∷ rest
      → (i : IsExclusive m (record { kernel = k; phase = phase }))
      → HandedOver m k i.ready t rest k'
      → IsExclusive m (record { kernel = k'; phase = update phase k.curthr outside })
  unfolding has
  handed-IsExclusive k k' phase t rest mine waiters i h =
      let q = (k.mutexes m).km_waitq in
      let on_queue : (u : ℕ) → has u (fifo (k'.mutexes m).km_waitq k') ≡ has u rest =
        λ u. ap (λ p. has u (fifo p k')) h.same_waitq ∙ ap (λ l. has u l) h.left in
      record {
        ready = handed-Ready k k' i.ready t rest waiters h;
        lock = h.lock;
        holds = λ u e. elim (Bool-cases (u == k.curthr)) [
          | inl same ↦ absurd (ground arith)
          | inr other ↦ absurd (ground (arith, i.holds u))
        ];
        listed = λ u e. elim (Bool-cases (u == k.curthr)) [
          | inl same ↦ absurd (ground arith)
          | inr other ↦ elim (i.listed u (ground arith)) [
            | inr handed ↦ absurd (ground arith)
            | inl queued ↦ elim (Bool-cases (t == u)) [
              | inl next_one ↦ let eq : t ≡ u = ground arith in inr (h.holder ∙ ap (λ x. some x) eq)
              | inr later ↦ inl (ground (arith, on_queue u, queued, ap (λ l. has u l) waiters))
            ]
          ]
        ];
      }
