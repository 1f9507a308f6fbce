-- ===== src/Proc/Kmutex/Exclusion/Locks.antt =====
-- The calls of `kmutex_lock` keep the invariant of mutual exclusion.
use weenix_kernel_implementa.Common.{
  ℕ, ◌≡◌, ◌≢◌, refl, sym, ap, ◌∙◌, subst, inl, inr, false, ◌||◌, Option, none, some, List, [], ◌∷◌,
  ◌++◌, ◌==◌, update, Exec, ok, panic, ◌>>=◌, Option-cases, Bool-cases, arith,
}
use weenix_kernel_implementa.Proc.Kernel.{Kernel, set_mutex}
use weenix_kernel_implementa.Proc.Sched.{switched, Switch, sched_sleep_on}
use weenix_kernel_implementa.Proc.Sched.Fifo.{fifo, has, has-fifo, has-append}
use weenix_kernel_implementa.Proc.Sched.Switching.{
  Switched, asleep_on, sched_sleep_on-Switched, asleep_on-fifo,
}
use weenix_kernel_implementa.Proc.Kmutex.{points_to, acquired, blocked, kmutex_lock}
use weenix_kernel_implementa.Proc.Kmutex.Laws.{Ready}
use weenix_kernel_implementa.Proc.Kmutex.Exclusion.{Phase, waits, inside, IsExclusive}

module _ (m : ℕ) where
  pub resumes-IsExclusive :
      (k : Kernel) (phase : ℕ → Phase)
      → phase k.curthr ≡ waits
      → IsExclusive m (record { kernel = k; phase = phase })
      → IsExclusive m (record { kernel = k; phase = update phase k.curthr inside })
  resumes-IsExclusive k phase before i =
      let q = (k.mutexes m).km_waitq in
      let mine : (k.mutexes m).km_holder ≡ some k.curthr = elim (i.listed k.curthr before) [
        | inr handed ↦ handed
        | inl queued ↦ absurd (
            ground (
              arith,
              queued,
              has-fifo k.curthr q k,
              i.ready.queued.listed q k.curthr,
              i.ready.running,
            ))
      ] in
      record {
        ready = i.ready;
        lock = i.lock;
        holds = λ t e. elim (Bool-cases (t == k.curthr)) [
          | inl same ↦ let eq : k.curthr ≡ t = ground arith in mine ∙ ap (λ x. some x) eq
          | inr other ↦ i.holds t (ground arith)
        ];
        listed = λ t e. elim (Bool-cases (t == k.curthr)) [
          | inl same ↦ absurd (ground arith)
          | inr other ↦ i.listed t (ground arith)
        ];
      }

  abbrev pub set_holder : Option ℕ → Kernel → Kernel
  set_holder h k = set_mutex m (record (k.mutexes m) { km_holder = h }) k

  abbrev pub taken : Kernel → Kernel
  taken k = set_holder (some k.curthr) k

  not_acquired : (r : Exec Switch) (k' : Kernel) → (r >>= λ s. ok (blocked s)) ≢ ok (acquired k')
  not_acquired panic k' e = cc
  not_acquired (ok s) k' e = cc

  pub lock-acquired :
      (intrs : List (Kernel → Exec Kernel)) (k k' : Kernel)
      → kmutex_lock m intrs k ≡ ok (acquired k')
      → ((k.mutexes m).km_holder ≡ none) × (k' ≡ taken k)
  unfolding kmutex_lock
  lock-acquired intrs k k' e = elim (Bool-cases (points_to (k.mutexes m).km_holder k.curthr)) [
    | inl mine ↦ let fails : kmutex_lock m intrs k ≡ panic = rw mine refl in cc
    | inr other ↦ elim (Option-cases (k.mutexes m).km_holder) [
      | inl free ↦
          let got : kmutex_lock m intrs k ≡ ok (acquired (taken k)) = rw free refl in (free, cc)
      | inr (h, holder) ↦
          let r = sched_sleep_on (k.mutexes m).km_waitq intrs k in
          let other_h : (h == k.curthr) ≡ false = ground arith in
          let slept : kmutex_lock m intrs k ≡ (r >>= λ s. ok (blocked s)) =
            rw (holder, other_h) refl in
          absurd (not_acquired r k' (sym slept ∙ e))
    ]
  ]

  pub lock-blocked :
      (intrs : List (Kernel → Exec Kernel)) (k k' : Kernel) (t : ℕ) (rest : List ℕ)
      → Ready m k
      → fifo k.runq k ≡ t ∷ rest
      → kmutex_lock m intrs k ≡ ok (blocked (switched k'))
      → ((h : ℕ) × ((k.mutexes m).km_holder ≡ some h) × ((h == k.curthr) ≡ false))
        × Switched t rest (asleep_on (k.mutexes m).km_waitq k) k'
  unfolding kmutex_lock
  lock-blocked intrs k k' t rest ready runnable e =
      elim (Bool-cases (points_to (k.mutexes m).km_holder k.curthr)) [
        | inl mine ↦ let fails : kmutex_lock m intrs k ≡ panic = rw mine refl in cc
        | inr other ↦ elim (Option-cases (k.mutexes m).km_holder) [
          | inl free ↦
              let got : kmutex_lock m intrs k ≡ ok (acquired (taken k)) = rw free refl in cc
          | inr (h, holder) ↦
              let other_h : (h == k.curthr) ≡ false = ground arith in
              let (k2, slept, s) =
                sched_sleep_on-Switched (k.mutexes m).km_waitq intrs k t rest ready.queued
                  ready.waitq ready.running runnable in
              let got : kmutex_lock m intrs k ≡ ok (blocked (switched k2)) =
                rw (holder, other_h, slept) refl in
              let same : k2 ≡ k' = cc in
              (
                (h, holder, other_h),
                subst (Switched t rest (asleep_on (k.mutexes m).km_waitq k)) same s,
              )
        ]
      ]

  pub set_holder-Ready : (h : Option ℕ) (k : Kernel) → Ready m k → Ready m (set_holder h k)
  set_holder-Ready h k r = record {
    queued = record {
      sized = r.queued.sized;
      distinct = r.queued.distinct;
      listed = r.queued.listed;
      linked = r.queued.linked;
      states = r.queued.states;
    };
    waitq = ground (arith, r.waitq);
    running = r.running;
  }

  pub locks-IsExclusive :
      (k : Kernel) (phase : ℕ → Phase)
      → (k.mutexes m).km_holder ≡ none
      → IsExclusive m (record { kernel = k; phase = phase })
      → IsExclusive m (record { kernel = taken k; phase = update phase k.curthr inside })
  unfolding has
  locks-IsExclusive k phase free i = record {
    ready = set_holder-Ready (some k.curthr) k i.ready;
    lock = record { free = ground arith; apart = λ u h. ground (arith, i.lock.free free) };
    holds = λ t e. elim (Bool-cases (t == k.curthr)) [
      | inl same ↦ let eq : k.curthr ≡ t = ground arith in ground (arith, eq)
      | inr other ↦ absurd (ground (arith, i.holds t))
    ];
    listed = λ t e. elim (Bool-cases (t == k.curthr)) [
      | inl same ↦ absurd (ground arith)
      | inr other ↦ elim (i.listed t (ground arith)) [
        | inl queued ↦
            let q = (k.mutexes m).km_waitq in
            let gone : has t (k.queues q).tq_list ≡ false = ap (λ l. has t l) (i.lock.free free) in
            absurd (ground (arith, queued, gone, has-fifo t q k))
        | inr holder ↦ absurd (ground arith)
      ]
    ];
  }

  pub sleeps-IsExclusive :
      (k k' : Kernel) (phase : ℕ → Phase) (t : ℕ) (rest : List ℕ) (h : ℕ)
      → (k.mutexes m).km_holder ≡ some h
      → (h == k.curthr) ≡ false
      → Switched t rest (asleep_on (k.mutexes m).km_waitq k) k'
      → IsExclusive m (record { kernel = k; phase = phase })
      → IsExclusive m (record { kernel = k'; phase = update phase k.curthr waits })
  unfolding has
  sleeps-IsExclusive k k' phase t rest h holder other s i =
      let q = (k.mutexes m).km_waitq in
      let same_m : k'.mutexes m ≡ k.mutexes m = ap (λ ms. ms m) s.mutexes in
      let same_q : (k'.mutexes m).km_waitq ≡ q = ap (λ x. x.km_waitq) same_m in
      let holder' : (k'.mutexes m).km_holder ≡ some h = ap (λ x. x.km_holder) same_m ∙ holder in
      let last : fifo q k' ≡ fifo q k ++ k.curthr ∷ [] =
        asleep_on-fifo q t rest k k' i.ready.waitq s in
      let on_queue : (u : ℕ)
          → has u (fifo (k'.mutexes m).km_waitq k') ≡ (has u (fifo q k) || k.curthr == u) =
        λ u. rw (same_q, last) (ground (arith, has-append u (fifo q k) (k.curthr ∷ []))) in
      record {
        ready = record {
          queued = s.queued;
          waitq = λ e. i.ready.waitq (sym same_q ∙ e ∙ s.same_runq);
          running = ap (λ u. (k'.threads u).kt_wchan) s.current ∙ s.running;
        };
        lock = record {
          free = λ freed. absurd (ground (arith, holder', freed));
          apart = λ u e.
              let q' = (k'.mutexes m).km_waitq in
              let same : h ≡ u = ground (arith, holder', e) in
              let before = i.lock.apart u (holder ∙ ap (λ x. some x) same) in
              ground (
                arith,
                has-fifo u q' k',
                on_queue u,
                has-fifo u q k,
                before,
                ap (λ x. x == k.curthr) same,
                other,
              );
        };
        holds = λ u e. elim (Bool-cases (u == k.curthr)) [
          | inl same ↦ absurd (ground arith)
          | inr differs ↦ ap (λ x. x.km_holder) same_m ∙ i.holds u (ground arith)
        ];
        listed = λ u e. elim (Bool-cases (u == k.curthr)) [
          | inl same ↦ inl (ground (arith, on_queue u))
          | inr differs ↦ elim (i.listed u (ground arith)) [
            | inl queued ↦ inl (ground (arith, on_queue u, queued))
            | inr handed ↦ inr (ap (λ x. x.km_holder) same_m ∙ handed)
          ]
        ];
      }
