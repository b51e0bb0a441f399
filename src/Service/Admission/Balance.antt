-- ===== src/Service/Admission/Balance.antt =====
-- No slot is lost, none is given twice, and no request is forgotten.
use data_mate.Base.{
  ℕ, ◌+◌, ◌≤◌, ◌≡◌, true, ◌&&◌, List, [], ◌∷◌, ◌++◌, length, ltb, ◌==◌, if◌then◌else◌, Bool-cases,
  inl, inr, arith,
}
use data_mate.Service.Admission.{
  max_active, max_waiting, Refusal, Slots, no_requests, Event, Reply, admitted, returned, refused,
  release, holds, has_slot, may_give_up, admit, take_slot, stop_waiting, return_slot, play,
}

-- How often a request stands in a list.
abbrev pub count : ℕ → List ℕ → ℕ
count k [] = 0
count k (j ∷ js) = (if j == k then 1 else 0) + count k js

abbrev pub entries : ℕ → List Event → ℕ
entries k [] = 0
entries k (Event.enter j ∷ es) = (if j == k then 1 else 0) + entries k es
entries k (_ ∷ es) = entries k es

abbrev pub admissions : ℕ → List Reply → ℕ
admissions k [] = 0
admissions k (admitted j ∷ rs) = (if j == k then 1 else 0) + admissions k rs
admissions k (_ ∷ rs) = admissions k rs

abbrev pub refusals : ℕ → List Reply → ℕ
refusals k [] = 0
refusals k (refused j why ∷ rs) = (if j == k then 1 else 0) + refusals k rs
refusals k (_ ∷ rs) = refusals k rs

abbrev pub returns : ℕ → List Reply → ℕ
returns k [] = 0
returns k (returned j ∷ rs) = (if j == k then 1 else 0) + returns k rs
returns k (_ ∷ rs) = returns k rs

-- What holds of the slots and the replies after requests have entered.
pub record IsBalanced (entered : ℕ → ℕ) (w : Slots × List Reply) : Type 0 where
  pub few_active : length w.0.active ≤ max_active
  pub few_waiting : length w.0.waiting ≤ max_waiting
  pub answered : (k : ℕ) → entered k ≡ admissions k w.1 + refusals k w.1 + count k w.0.waiting
  pub running : (k : ℕ) → admissions k w.1 ≡ returns k w.1 + count k w.0.active

count-release :
    (j k : ℕ) (js : List ℕ)
    → holds j js ≡ true
    → count k js ≡ (if j == k then 1 else 0) + count k (release j js)
unfolding release
count-release j k [] h = cc
count-release j k (i ∷ js) h = elim (Bool-cases (i == j)) [
  | inl here ↦ ground (arith, here)
  | inr apart ↦
      let rest = count-release j k js (ground (arith, apart)) in
      rw (release, apart) (omega (arith, rest))
]

length-release_le : (k : ℕ) (js : List ℕ) → length (release k js) ≤ length js
unfolding release
length-release_le k [] = omega arith
length-release_le k (j ∷ js) = ground (arith, length-release_le k js)

module _ (entered : ℕ → ℕ) (s : Slots) (rs : List Reply) where
  admit-IsBalanced :
      (j : ℕ)
      → IsBalanced entered (s, rs)
      → let o = admit j s in
        IsBalanced (λ k. (if j == k then 1 else 0) + entered k) (o.0, o.1 ++ rs)
  unfolding admit
  admit-IsBalanced j v = elim (Bool-cases s.stopped) [
    | inl closed ↦
        rw (admit, closed)
          (record {
            few_active = v.few_active;
            few_waiting = v.few_waiting;
            answered = λ k. omega (arith, v.answered k);
            running = v.running;
          })
    | inr going ↦ elim (Bool-cases (has_slot s)) [
      | inl free ↦
          rw (admit, going, free)
            (record {
              few_active = ground (arith, free);
              few_waiting = v.few_waiting;
              answered = λ k. omega (arith, v.answered k);
              running = λ k. omega (arith, v.running k);
            })
      | inr busy ↦ elim (Bool-cases (ltb (length s.waiting) max_waiting)) [
        | inl room ↦
            rw (admit, going, busy, room)
              (record {
                few_active = v.few_active;
                few_waiting = ground (arith, room);
                answered = λ k. omega (arith, v.answered k);
                running = v.running;
              })
        | inr full ↦
            rw (admit, going, busy, full)
              (record {
                few_active = v.few_active;
                few_waiting = v.few_waiting;
                answered = λ k. omega (arith, v.answered k);
                running = v.running;
              })
      ]
    ]
  ]

  take_slot-IsBalanced :
      (j : ℕ)
      → IsBalanced entered (s, rs)
      → let o = take_slot j s in IsBalanced entered (o.0, o.1 ++ rs)
  unfolding take_slot
  take_slot-IsBalanced j v = elim (Bool-cases (holds j s.waiting && has_slot s)) [
    | inr stays ↦ rw (take_slot, stays) v
    | inl goes ↦
        let there : holds j s.waiting ≡ true = ground (arith, goes) in
        let free : has_slot s ≡ true = ground (arith, goes) in
        rw (take_slot, goes)
          (record {
            few_active = ground (arith, free);
            few_waiting = omega (arith, length-release_le j s.waiting, v.few_waiting);
            answered = λ k. omega (arith, v.answered k, count-release j k s.waiting there);
            running = λ k. omega (arith, v.running k);
          })
  ]

  stop_waiting-IsBalanced :
      (j : ℕ) (why : Refusal)
      → IsBalanced entered (s, rs)
      → let o = stop_waiting j why s in IsBalanced entered (o.0, o.1 ++ rs)
  unfolding stop_waiting
  stop_waiting-IsBalanced j why v = elim (Bool-cases (holds j s.waiting && may_give_up why s)) [
    | inr stays ↦ rw (stop_waiting, stays) v
    | inl goes ↦
        let there : holds j s.waiting ≡ true = ground (arith, goes) in
        rw (stop_waiting, goes)
          (record {
            few_active = v.few_active;
            few_waiting = omega (arith, length-release_le j s.waiting, v.few_waiting);
            answered = λ k. omega (arith, v.answered k, count-release j k s.waiting there);
            running = v.running;
          })
  ]

  return_slot-IsBalanced :
      (j : ℕ)
      → IsBalanced entered (s, rs)
      → let o = return_slot j s in IsBalanced entered (o.0, o.1 ++ rs)
  unfolding return_slot
  return_slot-IsBalanced j v = elim (Bool-cases (holds j s.active)) [
    | inr stays ↦ rw (return_slot, stays) v
    | inl there ↦
        rw (return_slot, there)
          (record {
            few_active = omega (arith, length-release_le j s.active, v.few_active);
            few_waiting = v.few_waiting;
            answered = v.answered;
            running = λ k. omega (arith, v.running k, count-release j k s.active there);
          })
  ]

-- The entries of the events, after those before them.
abbrev after : (ℕ → ℕ) → List Event → ℕ → ℕ
after entered [] k = entered k
after entered (Event.enter j ∷ es) k = after (λ i. (if j == i then 1 else 0) + entered i) es k
after entered (Event.wake j ∷ es) k = after entered es k
after entered (Event.leave j ∷ es) k = after entered es k
after entered (Event.give_up j why ∷ es) k = after entered es k
after entered (Event.close ∷ es) k = after entered es k

after-entries :
    (entered : ℕ → ℕ) (es : List Event) (k : ℕ) → after entered es k ≡ entered k + entries k es
after-entries entered [] k = omega arith
after-entries entered (Event.enter j ∷ es) k =
    omega (arith, after-entries (λ i. (if j == i then 1 else 0) + entered i) es k)
after-entries entered (Event.wake j ∷ es) k = after-entries entered es k
after-entries entered (Event.leave j ∷ es) k = after-entries entered es k
after-entries entered (Event.give_up j why ∷ es) k = after-entries entered es k
after-entries entered (Event.close ∷ es) k = after-entries entered es k

play-after :
    (es : List Event) (entered : ℕ → ℕ) (w : Slots × List Reply)
    → IsBalanced entered w
    → IsBalanced (after entered es) (play es w)
unfolding play
play-after [] entered w v = v
play-after (Event.enter j ∷ es) entered (s, rs) v =
    play-after es _ _ (admit-IsBalanced entered s rs j v)
play-after (Event.wake j ∷ es) entered (s, rs) v =
    play-after es entered _ (take_slot-IsBalanced entered s rs j v)
play-after (Event.leave j ∷ es) entered (s, rs) v =
    play-after es entered _ (return_slot-IsBalanced entered s rs j v)
play-after (Event.give_up j why ∷ es) entered (s, rs) v =
    play-after es entered _ (stop_waiting-IsBalanced entered s rs j why v)
play-after (Event.close ∷ es) entered (s, rs) v = play-after es entered _ (record {
  few_active = v.few_active;
  few_waiting = v.few_waiting;
  answered = v.answered;
  running = v.running;
})

-- In any interleaving of the requests' steps, at most 32 requests run and at most 128 wait; every request that entered was
-- admitted, was refused or still waits, each entry counted once; and each slot that was given is in use or
-- was returned.
pub play-IsBalanced : (es : List Event) → IsBalanced (λ k. entries k es) (play es (no_requests, []))
play-IsBalanced es =
    let v =
      play-after es (λ k. 0) (no_requests, [])
        (record {
          few_active = omega arith;
          few_waiting = omega arith;
          answered = λ k. omega arith;
          running = λ k. omega arith;
        }) in
    record {
      few_active = v.few_active;
      few_waiting = v.few_waiting;
      answered = λ k. omega (arith, after-entries (λ i. 0) es k, v.answered k);
      running = v.running;
    }
