-- ===== src/Queue/Rounds.antt =====
-- crates/wyrd-queue/src/queue.rs: induction over the rounds of the loop of `seal_and_send`.
use wyrd_core.Prelude.{
  ℕ, zero, suc, ◌+◌, ◌-◌, ◌*◌, ◌/◌, ◌≤◌, ◌<◌, ◌≡◌, ◌⊎◌, inl, inr, false, List, [], ◌∷◌, ◌++◌, ltb,
  leb, length, take, drop, ok, err, panic, arith, refl, sym, ap, subst, Bool-cases, Outcome-cases,
}
use wyrd_core.Queue.{
  QueueError, payload_too_large, flush_timeout, sink_error, Row, BatchId, accepted, FlushOutcome,
  Setup, Chunks, Queue, PassResult, count_dropped, fail, keep, build_frames, seal, record_sent,
  seal_loop, work,
}
use wyrd_core.Queue.Steps.{
  Sent-cases, seal_loop-panic, seal_loop-err, seal_loop-single, seal_loop-split, seal_loop-accepted,
  seal_loop-refused, seal_loop-elapsed,
}

pub take-drop : {A : Type 0} (n : ℕ) (xs : List A) → take n xs ++ drop n xs ≡ xs
take-drop zero xs = refl
take-drop (suc n) [] = refl
take-drop (suc n) (x ∷ xs) = ap (λ ys. x ∷ ys) (take-drop n xs)

pub length-take-drop :
    {A : Type 0} (n : ℕ) (xs : List A) → length (take n xs) + length (drop n xs) ≡ length xs
length-take-drop zero xs = omega arith
length-take-drop (suc n) [] = omega arith
length-take-drop (suc n) (x ∷ xs) = omega (arith, length-take-drop n xs)

pub length-take : {A : Type 0} (n : ℕ) (xs : List A) → n ≤ length xs → length (take n xs) ≡ n
length-take zero xs h = refl
length-take (suc n) [] h = absurd (omega arith)
length-take (suc n) (x ∷ xs) h = omega (arith, length-take n xs)

pub length-drop : {A : Type 0} (n : ℕ) (xs : List A) → length (drop n xs) ≡ length xs - n
length-drop zero xs = omega arith
length-drop (suc n) [] = omega arith
length-drop (suc n) (x ∷ xs) = omega (arith, length-drop n xs)

-- A split lowers the work.
work-split :
    {A : Type 0} (chunk : List A)
    → leb (length chunk) 1 ≡ false
    → 1
        + 2 * (length (take (length chunk / 2) chunk) - 1)
        + (1 + 2 * (length (drop (length chunk / 2) chunk) - 1))
      < 1 + 2 * (length chunk - 1)
work-split chunk many =
    let mid = length chunk / 2 in
    let shares = length-take-drop mid chunk in
    let first = length-take mid chunk (omega arith) in
    let some_first : 1 ≤ mid = ground (arith, many) in
    let some_last : mid < length chunk = ground (arith, many) in omega (arith, shares, first)

-- At most one row, whose frames are longer than a message may be.
abbrev pub TooLarge : {U R B E : Type 0} → Setup U R B E → List (Row U R) → Type 0
TooLarge env rows =
    (length rows ≤ 1)
    × (frames : List ℕ) × (build_frames env rows ≡ ok frames)
    × (env.config.max_message_bytes < length frames)

module _ {U R B E : Type 0} (env : Setup U R B E)
    (P : FlushOutcome → Chunks U R → Queue U R → PassResult U R E → Type 0)
    (done : (start : FlushOutcome) (q : Queue U R) → P start [] q (ok start, q))
    (dead : (start : FlushOutcome) (batch_id : BatchId) (chunk : List (Row U R))
        (pending : Chunks U R) (q : Queue U R)
      → build_frames env chunk ≡ panic
      → P start ((batch_id, chunk) ∷ pending) q (panic, q))
    (lost : (start : FlushOutcome) (batch_id : BatchId) (chunk : List (Row U R))
        (pending : Chunks U R) (q : Queue U R) (e : QueueError E)
      → (build_frames env chunk ≡ err e) ⊎ ((e ≡ payload_too_large) × TooLarge env chunk)
      → P start ((batch_id, chunk) ∷ pending) q (fail e pending (count_dropped (length chunk) q)))
    (divided : (start : FlushOutcome) (batch_id : BatchId) (chunk : List (Row U R))
        (pending : Chunks U R) (q : Queue U R) (frames : List ℕ) (r : PassResult U R E)
      → build_frames env chunk ≡ ok frames
      → env.config.max_message_bytes < length frames
      → P start
          ((batch_id, take (length chunk / 2) chunk)
            ∷ (env.now_v7 q.minted, drop (length chunk / 2) chunk)
            ∷ pending)
          (record q { minted = suc q.minted })
          r
      → P start ((batch_id, chunk) ∷ pending) q r)
    (taken : (start : FlushOutcome) (batch_id : BatchId) (chunk : List (Row U R))
        (pending : Chunks U R) (q : Queue U R) (frames : List ℕ) (n : ℕ) (r : PassResult U R E)
      → build_frames env chunk ≡ ok frames
      → length frames ≤ env.config.max_message_bytes
      → env.send (q.sent ++ seal env batch_id frames chunk ∷ []) ≡ accepted n
      → P
          (record_sent batch_id chunk start)
          pending
          (record q { sent = q.sent ++ seal env batch_id frames chunk ∷ [] })
          r
      → P start ((batch_id, chunk) ∷ pending) q r)
    (kept : (start : FlushOutcome) (batch_id : BatchId) (chunk : List (Row U R))
        (pending : Chunks U R) (q : Queue U R) (frames : List ℕ) (e : QueueError E)
      → build_frames env chunk ≡ ok frames
      → length frames ≤ env.config.max_message_bytes
      → P start ((batch_id, chunk) ∷ pending) q (
          keep e
            (batch_id, chunk)
            pending
            (record q { sent = q.sent ++ seal env batch_id frames chunk ∷ [] }))) where
  pub seal_loop_induct :
      (fuel : ℕ) (start : FlushOutcome) (pending : Chunks U R) (q : Queue U R)
      → work pending < fuel
      → P start pending q (seal_loop env fuel pending start q)
  unfolding seal_loop
  seal_loop_induct zero start pending q enough = absurd (omega arith)
  seal_loop_induct (suc fuel) start [] q enough = done start q
  seal_loop_induct (suc fuel) start ((b, c) ∷ pending) q enough =
      let round = seal_loop env (suc fuel) ((b, c) ∷ pending) start q in
      let to : (r : PassResult U R E)
          → round ≡ r
          → P start ((b, c) ∷ pending) q r
          → P start ((b, c) ∷ pending) q round =
        λ r eq. subst (P start ((b, c) ∷ pending) q) (sym eq) in
      elim (Outcome-cases (build_frames env c)) [
        | inl (frames, built) ↦
            elim (Bool-cases (ltb env.config.max_message_bytes (length frames))) [
              | inl large ↦ elim (Bool-cases (leb (length c) 1)) [
                | inl single ↦
                    to _ (seal_loop-single env fuel b c pending start q frames built large single) (
                      lost start b c pending q payload_too_large (
                        inr (refl, (ground (arith, single), frames, built, ground (arith, large)))))
                | inr many ↦
                    let shrinks = work-split c many in
                    to _ (seal_loop-split env fuel b c pending start q frames built large many) (
                      divided start b c pending q frames _ built (ground (arith, large))
                        (seal_loop_induct fuel start _ _ (omega (arith, shrinks, enough))))
              ]
              | inr fits ↦
                  let bound : length frames ≤ env.config.max_message_bytes = ground (arith, fits) in
                  elim (Sent-cases (env.send (q.sent ++ seal env b frames c ∷ []))) [
                    | inl (n, ack) ↦
                        to _
                          (seal_loop-accepted env fuel b c pending start q frames built fits n ack)
                          (taken start b c pending q frames n _ built bound ack (
                            seal_loop_induct fuel (record_sent b c start) pending _
                              (omega (arith, enough))))
                    | inr (inl (e, failed)) ↦
                        to _
                          (seal_loop-refused env fuel b c pending start q frames built fits e
                            failed)
                          (kept start b c pending q frames (sink_error e) built bound)
                    | inr (inr late) ↦
                        to _ (seal_loop-elapsed env fuel b c pending start q frames built fits late)
                          (kept start b c pending q frames flush_timeout built bound)
                  ]
            ]
        | inr (inl (e, failed)) ↦
            to _ (seal_loop-err env fuel b c pending start q e failed)
              (lost start b c pending q e (inl failed))
        | inr (inr panics) ↦
            to _ (seal_loop-panic env fuel b c pending start q panics)
              (dead start b c pending q panics)
      ]
