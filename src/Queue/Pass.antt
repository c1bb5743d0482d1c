-- ===== src/Queue/Pass.antt =====
-- crates/wyrd-queue/src/queue.rs: where the rows of a pass of `seal_and_send` go.
use wyrd_core.Prelude.{
  ℕ, zero, suc, ◌/◌, ◌^◌, ◌≤◌, ◌<◌, ◌≡◌, inl, inr, List, [], ◌∷◌, ◌++◌, leb, if◌then◌else◌, length,
  take, drop, arith, refl, sym, ap, ◌∙◌, subst, append_assoc,
}
use wyrd_core.Queue.Rounds.{take-drop, length-drop, seal_loop_induct}
use wyrd_core.Queue.{
  Row, FlushOutcome, Setup, Chunks, Queue, PassResult, seal, seal_loop, seal_rows, work,
  seal_and_send,
}
use wyrd_core.Queue.Accounts.{
  rows_of, emptied, PassOf, Account-fail, Account-keep, Account-accept, Account-split, Account-nil,
}

module _ {U R B E : Type 0} (env : Setup U R B E) where
  abbrev Goal : FlushOutcome → Chunks U R → Queue U R → PassResult U R E → Type 0
  Goal start pending q r =
      q.retry ≡ [] → q.dropped < 2 ^ 64 → PassOf env start (rows_of pending) q r

  pub seal_loop-PassOf :
      (fuel : ℕ) (start : FlushOutcome) (pending : Chunks U R) (q : Queue U R)
      → work pending < fuel
      → Goal start pending q (seal_loop env fuel pending start q)
  seal_loop-PassOf =
      seal_loop_induct env Goal (λ start q kept bound. inl (Account-nil env start q kept bound))
        (λ start b c pending q built kept bound. inr (c, built, refl))
        (λ start b c pending q e why kept bound.
          inl (Account-fail env start b c pending q e kept (inr why)))
        (λ start b c pending q frames r built large pass kept bound. elim (pass kept bound) [
          | inl a ↦ inl (Account-split env start (length c / 2) c pending q (suc q.minted) r a)
          | inr panics ↦ inr panics
        ])
        (λ start b c pending q frames n r built fits ack pass kept bound. elim (pass kept bound) [
          | inl a ↦ inl (Account-accept env start b c pending q frames n r built fits ack a)
          | inr panics ↦ inr panics
        ])
        (λ start b c pending q frames e built fits kept bound.
          inl (Account-keep env start b c pending q e (seal env b frames c) kept bound))

  rows_of-seal_rows :
      (fuel size : ℕ) (rows : List (Row U R)) (minted : ℕ)
      → 0 < size
      → length rows ≤ fuel
      → rows_of (seal_rows env fuel size rows minted).0 ≡ rows
  unfolding seal_rows
  rows_of-seal_rows fuel size [] minted pos enough = refl
  rows_of-seal_rows zero size (row ∷ rows) minted pos enough = absurd (omega arith)
  rows_of-seal_rows (suc fuel) size (row ∷ rows) minted pos enough =
      ap (λ more. take size (row ∷ rows) ++ more)
        (rows_of-seal_rows fuel size (drop size (row ∷ rows)) (suc minted) pos
          (omega (arith, length-drop size (row ∷ rows), pos, enough)))
      ∙ take-drop size (row ∷ rows)

  rows_of-append : (xs ys : Chunks U R) → rows_of (xs ++ ys) ≡ rows_of xs ++ rows_of ys
  rows_of-append [] ys = refl
  rows_of-append ((b, c) ∷ xs) ys =
      ap (λ rows. c ++ rows) (rows_of-append xs ys) ∙ sym (append_assoc c (rows_of xs) (rows_of ys))

  forget_minted :
      (start : FlushOutcome) (rows : List (Row U R)) (q : Queue U R) (minted : ℕ)
      (r : PassResult U R E)
      → PassOf env start rows (record q { minted = minted }) r
      → PassOf env start rows q r
  forget_minted start rows q minted r (inl a) = inl (record {
    done = a.done;
    lost = a.lost;
    reached = a.reached;
    tried = a.tried;
    delivered = a.delivered;
    sent_all = a.sent_all;
    in_order = a.in_order;
    counted = a.counted;
    left = a.left;
    judged = a.judged;
  })
  forget_minted start rows q minted r (inr panics) = inr panics

  -- A pass accounts for every row that waited in the retry and staging buffers, in their order: first those
  -- delivered, in batches that the sink took one after another, then those lost, then those in the retry
  -- buffer. The staging buffer is empty after it. The drop counter has grown by the number of rows lost,
  -- wrapped at 64 bits. If the pass succeeds, nothing is lost or left to retry, and its outcome lists the ids
  -- delivered and the number of rows. If it fails, at most one batch was sent besides, and what is lost is
  -- nothing, a chunk whose build failed with that error, or at most one row, whose frames are longer than a
  -- message may be. It always ends, and panics only where the build of a chunk does. The drop counter starts below the bound.
  pub seal_and_send-PassOf :
      (q : Queue U R)
      → q.dropped < 2 ^ 64
      → PassOf env
          (record { batch_ids = []; rows_flushed = 0 })
          (rows_of q.retry ++ q.staging)
          (emptied q)
          (seal_and_send env q)
  unfolding seal_and_send
  seal_and_send-PassOf q bound =
      let size = if leb env.config.flush_max_rows 0 then 1 else env.config.flush_max_rows in
      let (chunks, minted) = seal_rows env (length q.staging) size q.staging q.minted in
      let pending = q.retry ++ chunks in
      let none_sent : FlushOutcome = record { batch_ids = []; rows_flushed = 0 } in
      let pass =
        seal_loop-PassOf (suc (work pending)) none_sent pending
          (record (emptied q) { minted = minted }) (omega arith) refl bound in
      let staged =
        rows_of-seal_rows (length q.staging) size q.staging q.minted (ground arith) (omega arith) in
      forget_minted none_sent (rows_of q.retry ++ q.staging) (emptied q) minted _ (
        subst
          (λ rows.
            PassOf env none_sent rows (record (emptied q) { minted = minted })
              (seal_and_send env q))
          (rows_of-append q.retry chunks ∙ ap (λ rows. rows_of q.retry ++ rows) staged) pass)
