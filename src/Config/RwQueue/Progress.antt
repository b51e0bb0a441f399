-- ===== src/Config/RwQueue/Progress.antt =====
-- `rwQueue` of internal/config/locks.go loses no wake-up.
use data_mate.Base.{
  ℕ, ◌<◌, ◌≡◌, refl, ◌∙◌, Bool, true, false, List, [], ◌∷◌, total, All, any, ltb, dec_lt, arith,
}
use data_mate.Config.RwQueue.{RwQueue, may_enter, Thread, idle, awake, asleep, holding, System}
use data_mate.Config.RwQueue.Invariant.{
  Reach, IsHeard, readers_of, writers_of, waiting_of, start, reachable-IsConsistent,
}

-- A goroutine that can move without waiting for another.
abbrev pub is_ready : RwQueue → Thread → Bool
is_ready q (awake w) = true
is_ready q (asleep w c) = ltb c q.changed
is_ready q (holding w) = false
is_ready q idle = false

abbrev pub is_asleep : Thread → Bool
is_asleep (asleep w c) = true
is_asleep (awake w) = false
is_asleep (holding w) = false
is_asleep idle = false

waiting-ready :
    (q : RwQueue) (ts : List Thread)
    → may_enter true q ≡ true
    → All (IsHeard q) ts
    → 0 < waiting_of ts
    → any (is_ready q) ts ≡ true
unfolding any total
waiting-ready q [] m h w = absurd (omega arith)
waiting-ready q (idle ∷ ts) m h w = waiting-ready q ts m h.1 (omega arith)
waiting-ready q (awake x ∷ ts) m h w = refl
waiting-ready q (holding x ∷ ts) m h w = waiting-ready q ts m h.1 (omega arith)
waiting-ready q (asleep true c ∷ ts) m h w = ground (arith, h.0)
waiting-ready q (asleep false c ∷ ts) m h w = ground (arith, waiting-ready q ts m h.1 (omega arith))

asleep-ready :
    (q : RwQueue) (ts : List Thread)
    → q.writer ≡ false
    → q.readers ≡ 0
    → q.waiting ≡ 0
    → All (IsHeard q) ts
    → any is_asleep ts ≡ true
    → any (is_ready q) ts ≡ true
unfolding any may_enter
asleep-ready q [] a b c h e = cc
asleep-ready q (idle ∷ ts) a b c h e = asleep-ready q ts a b c h.1 e
asleep-ready q (awake x ∷ ts) a b c h e = refl
asleep-ready q (holding x ∷ ts) a b c h e = asleep-ready q ts a b c h.1 e
asleep-ready q (asleep w d ∷ ts) a b c h e = ground (arith, h.0)

-- No lost wake-up: whenever nobody is in the section and some goroutine sleeps, one goroutine is awake
-- in its loop, or sleeps on a channel that is closed.
pub free-ready :
    (n : ℕ) {s : System}
    → Reach (start n) s
    → readers_of s.threads ≡ 0
    → writers_of s.threads ≡ 0
    → any is_asleep s.threads ≡ true
    → any (is_ready s.queue) s.threads ≡ true
free-ready n {s} r none_read none_write e =
    let c = reachable-IsConsistent n r in
    let readers : s.queue.readers ≡ 0 = c.readers ∙ none_read in
    let writer : s.queue.writer ≡ false = ground (arith, c.writers) in
    elim (dec_lt 0 s.queue.waiting) [
      | yes some_wait ↦
          waiting-ready s.queue s.threads (unfold may_enter in ground arith) c.heard
            (omega (arith, c.waiting))
      | no none_wait ↦ asleep-ready s.queue s.threads writer readers (omega arith) c.heard e
    ]
