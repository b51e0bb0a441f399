-- ===== src/Config/RwQueue/Invariant.antt =====
-- The interleavings of goroutines over `rwQueue` of internal/config/locks.go: exclusion, and no lost
-- wake-up.
use data_mate.Base.{
  ℕ, suc, ◌+◌, ◌≤◌, ◌<◌, ◌≡◌, refl, ◌⊎◌, Bool, true, false, some, List, [], ◌∷◌, ◌++◌, total, All,
  subst, sym, ap, ◌∙◌, zero, arith, not, ◌||◌, ◌==◌,
}
use data_mate.Config.RwQueue.{
  RwQueue, may_enter, Thread, idle, awake, asleep, holding, Event, calls, attempts, wakes, releases,
  step_thread, System, new_queue,
}

-- One goroutine moves; the others stand still.
pub data Step (s : System) (u : System) : Type 0 where
  move :
      (before after : List Thread) (e : Event) (t t' : Thread)
      → s.threads ≡ before ++ (t ∷ after)
      → step_thread e s.queue t ≡ some (u.queue, t')
      → u.threads ≡ before ++ (t' ∷ after)
      → Step s u

pub data Reach (s : System) : System → Type 0 where
  here : Reach s s
  next : {t u : System} → Reach s t → Step t u → Reach s u

abbrev reads : Thread → ℕ
reads (holding false) = 1
reads (holding true) = 0
reads idle = 0
reads (awake w) = 0
reads (asleep w c) = 0

abbrev writes : Thread → ℕ
writes (holding true) = 1
writes (holding false) = 0
writes idle = 0
writes (awake w) = 0
writes (asleep w c) = 0

abbrev waits : Thread → ℕ
waits (awake true) = 1
waits (asleep true c) = 1
waits (awake false) = 0
waits (asleep false c) = 0
waits (holding w) = 0
waits idle = 0

abbrev pub readers_of : List Thread → ℕ
readers_of = total reads

abbrev pub writers_of : List Thread → ℕ
writers_of = total writes

abbrev pub waiting_of : List Thread → ℕ
waiting_of = total waits

-- A goroutine that sleeps has been woken, or could not enter.
abbrev pub IsHeard : RwQueue → Thread → Type 0
IsHeard q (asleep w c) = (c < q.changed) ⊎ ((c ≤ q.changed) × (may_enter w q ≡ false))
IsHeard q idle = Unit {0}
IsHeard q (awake w) = Unit {0}
IsHeard q (holding w) = Unit {0}

abbrev as_number : Bool → ℕ
as_number true = 1
as_number false = 0

-- The counters are true, a writer is alone, and no wake-up is lost.
pub record IsConsistent (s : System) : Type 0 where
  pub readers : s.queue.readers ≡ readers_of s.threads
  pub writers : as_number s.queue.writer ≡ writers_of s.threads
  pub waiting : s.queue.waiting ≡ waiting_of s.threads
  pub alone : not s.queue.writer || (s.queue.readers == 0) ≡ true
  pub heard : All (IsHeard s.queue) s.threads

total-append {ℓ} :
    {A : Type ℓ} (f : A → ℕ) (xs ys : List A) → total f (xs ++ ys) ≡ total f xs + total f ys
unfolding total
total-append f [] ys = omega arith
total-append f (x ∷ xs) ys = omega (arith, total-append f xs ys)

-- The goroutines that stand still stay heard.
step-IsHeard :
    (e : Event) (q q' : RwQueue) (t t' : Thread) (w : Bool) (c : ℕ)
    → step_thread e q t ≡ some (q', t')
    → IsHeard q (asleep w c)
    → IsHeard q' (asleep w c)
unfolding step_thread
step-IsHeard (calls x) q q' idle t' w c moved h = ground arith
step-IsHeard (attempts x) q q' (awake y) t' w c moved h = ground arith
step-IsHeard (wakes x) q q' (asleep y d) t' w c moved h = ground arith
step-IsHeard releases q q' (holding y) t' w c moved h = ground arith
step-IsHeard _ q q' _ t' w c moved h = cc

step-All :
    (e : Event) (q q' : RwQueue) (t t' : Thread) (us : List Thread)
    → step_thread e q t ≡ some (q', t')
    → All (IsHeard q) us
    → All (IsHeard q') us
step-All e q q' t t' [] moved h = tt
step-All e q q' t t' (idle ∷ us) moved h = (tt, step-All e q q' t t' us moved h.1)
step-All e q q' t t' (awake w ∷ us) moved h = (tt, step-All e q q' t t' us moved h.1)
step-All e q q' t t' (holding w ∷ us) moved h = (tt, step-All e q q' t t' us moved h.1)
step-All e q q' t t' (asleep w c ∷ us) moved h =
    (step-IsHeard e q q' t t' w c moved h.0, step-All e q q' t t' us moved h.1)

moved_asleep :
    (e : Event) (q q' : RwQueue) (t : Thread) (w : Bool) (c : ℕ)
    → step_thread e q t ≡ some (q', asleep w c)
    → IsHeard q' (asleep w c)
unfolding step_thread
moved_asleep (calls x) q q' idle w c moved = ground arith
moved_asleep (attempts x) q q' (awake y) w c moved = ground arith
moved_asleep (wakes x) q q' (asleep y d) w c moved = ground arith
moved_asleep releases q q' (holding y) w c moved = ground arith
moved_asleep _ q q' _ w c moved = cc

-- The goroutine that moves is heard where it comes to stand.
moved-IsHeard :
    (e : Event) (q q' : RwQueue) (t t' : Thread) → step_thread e q t ≡ some (q', t') → IsHeard q' t'
moved-IsHeard e q q' t idle moved = tt
moved-IsHeard e q q' t (awake w) moved = tt
moved-IsHeard e q q' t (holding w) moved = tt
moved-IsHeard e q q' t (asleep w c) moved = moved_asleep e q q' t w c moved

-- The counters move with the goroutine: `r`, `w` and `n` count the goroutines that stand still.
record Counts (q : RwQueue) (t : Thread) (r w n : ℕ) : Type 0 where
  readers : q.readers ≡ r + reads t
  writers : as_number q.writer ≡ w + writes t
  waiting : q.waiting ≡ n + waits t
  alone : not q.writer || (q.readers == 0) ≡ true

step-Counts :
    (e : Event) (q q' : RwQueue) (t t' : Thread) (r w n : ℕ)
    → step_thread e q t ≡ some (q', t')
    → Counts q t r w n
    → Counts q' t' r w n
unfolding step_thread
step-Counts (calls x) q q' idle t' r w n moved h = ground arith
step-Counts (attempts x) q q' (awake y) t' r w n moved h = ground arith
step-Counts (wakes x) q q' (asleep y d) t' r w n moved h = ground arith
step-Counts releases q q' (holding y) t' r w n moved h = ground arith
step-Counts _ q q' _ t' r w n moved h = cc

All-append :
    (q : RwQueue) (ts us : List Thread)
    → All (IsHeard q) (ts ++ us)
    → All (IsHeard q) ts × All (IsHeard q) us
All-append q [] us h = (tt, h)
All-append q (t ∷ ts) us h = let rest = All-append q ts us h.1 in ((h.0, rest.0), rest.1)

append-All :
    (q : RwQueue) (ts us : List Thread)
    → All (IsHeard q) ts
    → All (IsHeard q) us
    → All (IsHeard q) (ts ++ us)
append-All q [] us h k = k
append-All q (t ∷ ts) us h k = (h.0, append-All q ts us h.1 k)

-- The sum over all goroutines, from the one that moves and the others.
total-split :
    (f : Thread → ℕ) (before : List Thread) (t : Thread) (after : List Thread)
    → total f (before ++ (t ∷ after)) ≡ total f before + total f after + f t
unfolding total
total-split f before t after = omega (arith, total-append f before (t ∷ after))

Step-IsConsistent : {s u : System} → Step s u → IsConsistent s → IsConsistent u
Step-IsConsistent {s} {u} (move before after e t t' from moved to) h =
    let sum = λ (f : Thread → ℕ). total f before + total f after in
    let old : Counts s.queue t (sum reads) (sum writes) (sum waits) = record {
      readers = h.readers ∙ (ap (total reads) from ∙ total-split reads before t after);
      writers = h.writers ∙ (ap (total writes) from ∙ total-split writes before t after);
      waiting = h.waiting ∙ (ap (total waits) from ∙ total-split waits before t after);
      alone = h.alone;
    } in
    let new = step-Counts e s.queue u.queue t t' (sum reads) (sum writes) (sum waits) moved old in
    let others =
      All-append s.queue before (t ∷ after) (subst (All (IsHeard s.queue)) from h.heard) in
    record {
      readers = new.readers ∙ sym (ap (total reads) to ∙ total-split reads before t' after);
      writers = new.writers ∙ sym (ap (total writes) to ∙ total-split writes before t' after);
      waiting = new.waiting ∙ sym (ap (total waits) to ∙ total-split waits before t' after);
      alone = new.alone;
      heard = rw to (
          append-All u.queue before (t' ∷ after)
            (step-All e s.queue u.queue t t' before moved others.0)
            (
              moved-IsHeard e s.queue u.queue t t' moved,
              step-All e s.queue u.queue t t' after moved others.1.1,
            ));
    }

Reach-IsConsistent : {s u : System} → Reach s u → IsConsistent s → IsConsistent u
Reach-IsConsistent here h = h
Reach-IsConsistent (next r st) h = Step-IsConsistent st (Reach-IsConsistent r h)

-- Goroutines that have not called yet.
abbrev pub fresh : ℕ → List Thread
fresh zero = []
fresh (suc n) = idle ∷ fresh n

abbrev pub start : ℕ → System
start n = record { queue = new_queue; threads = fresh n }

fresh-total : (f : Thread → ℕ) (n : ℕ) → f idle ≡ 0 → total f (fresh n) ≡ 0
unfolding total
fresh-total f zero h = refl
fresh-total f (suc n) h = omega (arith, fresh-total f n h)

fresh-IsHeard : (n : ℕ) → All (IsHeard new_queue) (fresh n)
fresh-IsHeard zero = tt
fresh-IsHeard (suc n) = (tt, fresh-IsHeard n)

-- From a new queue, whatever the interleaving of any number of goroutines, with contexts that end at
-- any time: the counters are those of the goroutines, a writer in the section is alone in it, and
-- each goroutine that sleeps has its channel closed or could not enter as things stand.
pub reachable-IsConsistent : (n : ℕ) {s : System} → Reach (start n) s → IsConsistent s
reachable-IsConsistent n r = Reach-IsConsistent r (record {
  readers = sym (fresh-total reads n refl);
  writers = sym (fresh-total writes n refl);
  waiting = sym (fresh-total waits n refl);
  alone = refl;
  heard = fresh-IsHeard n;
})

-- Never are two writers in the section, nor a writer and a reader.
pub exclusion :
    (n : ℕ) {s : System}
    → Reach (start n) s
    → (writers_of s.threads ≤ 1) × ((writers_of s.threads ≡ 0) ⊎ (readers_of s.threads ≡ 0))
exclusion n {s} r =
    let c = reachable-IsConsistent n r in
    (ground (arith, c.writers), ground (arith, c.writers, c.readers, c.alone))
