-- ===== src/Queue/Resend.antt =====
-- crates/wyrd-queue/src/queue.rs: what is sent under one batch id.
use wyrd_core.Prelude.{
  ℕ, zero, suc, ◌/◌, ◌<◌, ◌≡◌, List, [], ◌∷◌, ◌++◌, leb, length, take, drop, ok, arith, refl, sym,
  ap, ◌∙◌, subst, append_assoc, append-nil, if◌then◌else◌, All, All-append, All-map,
}
use wyrd_core.Queue.Rounds.{seal_loop_induct}
use wyrd_core.Queue.{
  Row, BatchId, SealedBatch, FlushOutcome, Setup, Chunks, Queue, PassResult, build_frames, seal,
  seal_loop, seal_rows, work, seal_and_send,
}
use wyrd_core.Queue.Ids.{
  ok-frames, Distinct-append, Known, SentAs, Stable, Known-suc, Stable-tail, Stable-nil,
  Stable-send,
}

module _ {U R B E : Type 0} (env : Setup U R B E) where
  module _ (unique : (i j : ℕ) → env.now_v7 i ≡ env.now_v7 j → i ≡ j) where
    -- The next UUID is not one of those before it.
    Known-new : (n : ℕ) (batch_id : BatchId) → Known env n batch_id → ¬ (env.now_v7 n ≡ batch_id)
    Known-new n batch_id (k, bound, same) new = absurd (omega (arith, unique n k (new ∙ same)))

    -- A chunk under a new id goes behind those that wait.
    Stable-mint :
        (waiting : Chunks U R) (chunk : List (Row U R)) (n : ℕ) (sent : List SealedBatch)
        → Stable env waiting n sent
        → Stable env (waiting ++ (env.now_v7 n, chunk) ∷ []) (suc n) sent
    Stable-mint waiting chunk n sent s =
        let c : BatchId × List (Row U R) = (env.now_v7 n, chunk) in
        record {
          known =
              All-append _ waiting (c ∷ [])
                (All-map waiting (λ (d : BatchId × List (Row U R)) k. Known-suc env n d.0 k)
                  s.known)
                ((n, omega arith, refl), tt);
          known_sent =
              All-map sent (λ (b : SealedBatch) k. Known-suc env n b.batch_id k) s.known_sent;
          distinct =
              Distinct-append waiting c s.distinct
                (All-map waiting (λ (d : BatchId × List (Row U R)) k. Known-new n d.0 k) s.known);
          sent_as = All-append _ waiting (c ∷ []) s.sent_as (
            All-map sent (λ (b : SealedBatch) k same. absurd (Known-new n b.batch_id k (sym same)))
                s.known_sent,
            tt,
          );
          alike = s.alike;
        }

    -- A chunk that was never sent, because it is too large, is split.
    Stable-split :
        (batch_id : BatchId) (chunk left right : List (Row U R)) (waiting : Chunks U R) (n : ℕ)
        (sent : List SealedBatch) (frames : List ℕ)
        → build_frames env chunk ≡ ok frames
        → env.config.max_message_bytes < length frames
        → Stable env ((batch_id, chunk) ∷ waiting) n sent
        → Stable env ((batch_id, left) ∷ (env.now_v7 n, right) ∷ waiting) (suc n) sent
    Stable-split batch_id chunk left right waiting n sent frames built large s =
        let older =
          All-map waiting (λ (d : BatchId × List (Row U R)) k. Known-suc env n d.0 k) s.known.1 in
        let newer : All (λ (d : BatchId × List (Row U R)). ¬ (d.0 ≡ env.now_v7 n)) waiting =
          All-map waiting (λ (d : BatchId × List (Row U R)) k same. Known-new n d.0 k (sym same))
            s.known.1 in
        record {
          known = (Known-suc env n batch_id s.known.0, ((n, omega arith, refl), older));
          known_sent =
              All-map sent (λ (b : SealedBatch) k. Known-suc env n b.batch_id k) s.known_sent;
          distinct = ((Known-new n batch_id s.known.0, s.distinct.0), (newer, s.distinct.1));
          sent_as = (
            All-map sent
                (λ (b : SealedBatch) (h : SentAs env (batch_id, chunk) b) same.
                  let (small, made, sealed) = h same in
                  let equal = ok-frames (build_frames env chunk) b.frames frames made built in
                  absurd (omega (arith, small, large, ap length equal)))
                s.sent_as.0,
            (
              All-map sent
                  (λ (b : SealedBatch) k same. absurd (Known-new n b.batch_id k (sym same)))
                  s.known_sent,
              s.sent_as.1,
            ),
          );
          alike = s.alike;
        }

    abbrev Goal : FlushOutcome → Chunks U R → Queue U R → PassResult U R E → Type 0
    Goal start pending q r =
        q.retry ≡ [] → Stable env pending q.minted q.sent → Stable env r.1.retry r.1.minted r.1.sent

    seal_loop-Stable :
        (fuel : ℕ) (start : FlushOutcome) (pending : Chunks U R) (q : Queue U R)
        → work pending < fuel
        → Goal start pending q (seal_loop env fuel pending start q)
    seal_loop-Stable =
        seal_loop_induct env Goal
          (λ start q empty s. subst (λ w. Stable env w q.minted q.sent) (sym empty) s)
          (λ start b c pending q built empty s.
            subst (λ w. Stable env w q.minted q.sent) (sym empty)
              (Stable-nil env _ q.minted q.sent s))
          (λ start b c pending q e why empty s.
            subst (λ w. Stable env (w ++ pending) q.minted q.sent) (sym empty)
              (Stable-tail env (b, c) pending q.minted q.sent s))
          (λ start b c pending q frames r built large next empty s. next empty (
            Stable-split b c (take (length c / 2) c) (drop (length c / 2) c) pending q.minted q.sent
              frames built large s))
          (λ start b c pending q frames n r built fits ack next empty s. next empty (
            Stable-tail env (b, c) pending q.minted _
              (Stable-send env b c pending q.minted q.sent frames built fits s)))
          (λ start b c pending q frames e built fits empty s.
            subst
              (λ w.
                Stable env ((b, c) ∷ (w ++ pending)) q.minted (q.sent ++ seal env b frames c ∷ []))
              (sym empty) (Stable-send env b c pending q.minted q.sent frames built fits s))

    seal_rows-Stable :
        (fuel size : ℕ) (rows : List (Row U R)) (n : ℕ) (waiting : Chunks U R)
        (sent : List SealedBatch)
        → Stable env waiting n sent
        → Stable env
            (waiting ++ (seal_rows env fuel size rows n).0)
            (seal_rows env fuel size rows n).1
            sent
    unfolding seal_rows
    seal_rows-Stable fuel size [] n waiting sent s = rw (append-nil waiting) s
    seal_rows-Stable zero size (row ∷ rows) n waiting sent s = rw (append-nil waiting) s
    seal_rows-Stable (suc fuel) size (row ∷ rows) n waiting sent s =
        let c : BatchId × List (Row U R) = (env.now_v7 n, take size (row ∷ rows)) in
        let (chunks, minted) = seal_rows env fuel size (drop size (row ∷ rows)) (suc n) in
        subst (λ w. Stable env w minted sent) (append_assoc waiting (c ∷ []) chunks)
          (seal_rows-Stable fuel size (drop size (row ∷ rows)) (suc n) (waiting ++ c ∷ []) sent
            (Stable-mint waiting (take size (row ∷ rows)) n sent s))

    -- A pass preserves the invariant of ids, whatever comes of it, under UUIDs that are never minted twice:
    -- every chunk that waits to be retried and every batch ever sent has an id minted before, the chunks'
    -- ids differ, a batch sent under the id of a waiting chunk is exactly what that chunk is sealed as,
    -- and any two batches sent under one id are equal.
    pub seal_and_send-Stable :
        (q : Queue U R)
        → Stable env q.retry q.minted q.sent
        → let q' = (seal_and_send env q).1 in Stable env q'.retry q'.minted q'.sent
    unfolding seal_and_send
    seal_and_send-Stable q s =
        let size = if leb env.config.flush_max_rows 0 then 1 else env.config.flush_max_rows in
        let (chunks, minted) = seal_rows env (length q.staging) size q.staging q.minted in
        let pending = q.retry ++ chunks in
        seal_loop-Stable (suc (work pending)) (record { batch_ids = []; rows_flushed = 0 }) pending
          (record q { staging = []; retry = []; minted = minted }) (omega arith) refl
          (seal_rows-Stable (length q.staging) size q.staging q.minted q.retry q.sent s)
