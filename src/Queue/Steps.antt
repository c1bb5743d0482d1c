-- ===== src/Queue/Steps.antt =====
-- crates/wyrd-queue/src/queue.rs: the branches of a round of `seal_and_send`.
use wyrd_core.Prelude.{
  ℕ, suc, ◌/◌, ◌≡◌, ◌⊎◌, inl, inr, true, false, List, [], ◌∷◌, ◌++◌, ltb, leb, length, take, drop,
  ok, err, panic, refl,
}
use wyrd_core.Queue.{
  QueueError, payload_too_large, flush_timeout, sink_error, Row, BatchId, SealedBatch, Sent,
  accepted, refused, elapsed, FlushOutcome, Setup, Chunks, Queue, PassResult, count_dropped, fail,
  keep, build_frames, seal, record_sent, seal_loop,
}

pub Sent-cases :
    {E : Type 0} (s : Sent E)
    → ((n : ℕ) × (s ≡ accepted n)) ⊎ (((e : E) × (s ≡ refused e)) ⊎ (s ≡ elapsed))
Sent-cases (accepted n) = inl (n, refl)
Sent-cases (refused e) = inr (inl (e, refl))
Sent-cases elapsed = inr (inr refl)

module _ {U R B E : Type 0} (env : Setup U R B E) (fuel : ℕ) (batch_id : BatchId)
    (chunk : List (Row U R)) (pending : Chunks U R) (start : FlushOutcome) (q : Queue U R) where
  abbrev round : PassResult U R E
  round = seal_loop env (suc fuel) ((batch_id, chunk) ∷ pending) start q

  pub seal_loop-panic : build_frames env chunk ≡ panic → round ≡ (panic, q)
  unfolding seal_loop
  seal_loop-panic built = rw (built, seal_loop) refl

  pub seal_loop-err :
      (e : QueueError E)
      → build_frames env chunk ≡ err e
      → round ≡ fail e pending (count_dropped (length chunk) q)
  unfolding seal_loop
  seal_loop-err e built = rw (built, seal_loop) refl

  module _ (frames : List ℕ) (built : build_frames env chunk ≡ ok frames) where
    abbrev sealed : SealedBatch
    sealed = seal env batch_id frames chunk

    abbrev after : Queue U R
    after = record q { sent = q.sent ++ sealed ∷ [] }

    pub seal_loop-single :
        ltb env.config.max_message_bytes (length frames) ≡ true
        → leb (length chunk) 1 ≡ true
        → round ≡ fail payload_too_large pending (count_dropped (length chunk) q)
    unfolding seal_loop
    seal_loop-single large single = rw (built, large, single, seal_loop) refl

    pub seal_loop-split :
        ltb env.config.max_message_bytes (length frames) ≡ true
        → leb (length chunk) 1 ≡ false
        → round
          ≡ seal_loop env fuel
              ((batch_id, take (length chunk / 2) chunk)
                ∷ (env.now_v7 q.minted, drop (length chunk / 2) chunk)
                ∷ pending)
              start
              (record q { minted = suc q.minted })
    unfolding seal_loop
    seal_loop-split large many = rw (built, large, many, seal_loop) refl

    module _ (fits : ltb env.config.max_message_bytes (length frames) ≡ false) where
      pub seal_loop-accepted :
          (n : ℕ)
          → env.send (q.sent ++ sealed ∷ []) ≡ accepted n
          → round ≡ seal_loop env fuel pending (record_sent batch_id chunk start) after
      unfolding seal_loop
      seal_loop-accepted n taken = rw (built, fits, taken, seal_loop) refl

      pub seal_loop-refused :
          (e : E)
          → env.send (q.sent ++ sealed ∷ []) ≡ refused e
          → round ≡ keep (sink_error e) (batch_id, chunk) pending after
      unfolding seal_loop
      seal_loop-refused e failed = rw (built, fits, failed, seal_loop) refl

      pub seal_loop-elapsed :
          env.send (q.sent ++ sealed ∷ []) ≡ elapsed
          → round ≡ keep flush_timeout (batch_id, chunk) pending after
      unfolding seal_loop
      seal_loop-elapsed late = rw (built, fits, late, seal_loop) refl
