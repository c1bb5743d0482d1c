-- ===== src/Queue/Accounts.antt =====
-- crates/wyrd-queue/src/queue.rs: the account that a pass of `seal_and_send` gives of its rows.
use wyrd_core.Prelude.{
  ℕ, ◌+◌, ◌%◌, ◌^◌, ◌≤◌, ◌<◌, ◌≡◌, ◌⊎◌, inl, List, [], ◌∷◌, ◌++◌, length, length-append, take, drop,
  Outcome, ok, err, panic, arith, refl, sym, ap, ◌∙◌, append_assoc, append-nil,
}
use wyrd_core.Queue.Rounds.{take-drop, TooLarge}
use wyrd_core.Queue.{
  QueueError, payload_too_large, Row, BatchId, SealedBatch, accepted, FlushOutcome, Setup, Chunks,
  Queue, PassResult, count_dropped, fail, keep, build_frames, seal, record_sent,
}

module _ {U R : Type 0} where
  abbrev pub rows_of : Chunks U R → List (Row U R)
  rows_of [] = []
  rows_of ((batch_id, chunk) ∷ chunks) = chunk ++ rows_of chunks

  abbrev pub ids_of : Chunks U R → List BatchId
  ids_of [] = []
  ids_of ((batch_id, chunk) ∷ chunks) = batch_id ∷ ids_of chunks

  -- The state from which a pass runs.
  abbrev pub emptied : Queue U R → Queue U R
  emptied q = record q { staging = []; retry = [] }

module _ {U R B E : Type 0} (env : Setup U R B E) where
  -- The sink took the chunks one by one, each in the frames that the builder makes of it.
  abbrev pub Delivered : List SealedBatch → Chunks U R → List SealedBatch → Type 0
  Delivered sent [] sent' = sent' ≡ sent
  Delivered sent ((batch_id, chunk) ∷ done) sent' =
      (frames : List ℕ) × (build_frames env chunk ≡ ok frames)
      × (length frames ≤ env.config.max_message_bytes)
      × (n : ℕ) × (env.send (sent ++ seal env batch_id frames chunk ∷ []) ≡ accepted n)
      × Delivered (sent ++ seal env batch_id frames chunk ∷ []) done sent'

  -- Why rows are lost: their build failed, or they are a single row whose frames are too long.
  abbrev pub LostBy : QueueError E → List (Row U R) → Type 0
  LostBy e lost =
      (lost ≡ []) ⊎ (build_frames env lost ≡ err e) ⊎ ((e ≡ payload_too_large) × TooLarge env lost)

  abbrev pub Judged :
      FlushOutcome
      → Chunks U R
      → List (Row U R)
      → List SealedBatch
      → Outcome (QueueError E) FlushOutcome
      → Queue U R
      → Type 0
  Judged start done lost tried (ok outcome) q =
      (lost ≡ [])
      × (tried ≡ [])
      × (q.retry ≡ [])
      × (outcome.batch_ids ≡ start.batch_ids ++ ids_of done)
      × (outcome.rows_flushed ≡ start.rows_flushed + length (rows_of done))
  Judged start done lost tried (err e) q = LostBy e lost × (length tried ≤ 1)
  Judged start done lost tried panic q = ⊥

  -- The account of a pass over some rows, from a state without them to a result.
  pub record Account (start : FlushOutcome) (rows : List (Row U R)) (q : Queue U R)
      (r : PassResult U R E) : Type 0 where
    pub done : Chunks U R
    pub lost : List (Row U R)
    pub reached : List SealedBatch
    pub tried : List SealedBatch
    pub delivered : Delivered q.sent done reached
    pub sent_all : r.1.sent ≡ reached ++ tried
    pub in_order : rows_of done ++ (lost ++ rows_of r.1.retry) ≡ rows
    pub counted : r.1.dropped ≡ (q.dropped + length lost) % 2 ^ 64
    pub left : r.1.staging ≡ q.staging
    pub judged : Judged start done lost tried r.0 r.1

  -- The build of a chunk panics, and the pass with it.
  abbrev pub Panics : PassResult U R E → Type 0
  Panics r = (chunk : List (Row U R)) × (build_frames env chunk ≡ panic) × (r.0 ≡ panic)

  abbrev pub PassOf : FlushOutcome → List (Row U R) → Queue U R → PassResult U R E → Type 0
  PassOf start rows q r = Account start rows q r ⊎ Panics r

  pub Account-fail :
      (start : FlushOutcome) (batch_id : BatchId) (chunk : List (Row U R)) (pending : Chunks U R)
      (q : Queue U R) (e : QueueError E)
      → q.retry ≡ []
      → LostBy e chunk
      → Account start (chunk ++ rows_of pending) q (fail e pending (count_dropped (length chunk) q))
  Account-fail start batch_id chunk pending q e none_kept why = record {
    done = [];
    lost = chunk;
    reached = q.sent;
    tried = [];
    delivered = refl;
    sent_all = sym (append-nil q.sent);
    in_order = rw none_kept refl;
    counted = refl;
    left = refl;
    judged = (why, omega arith);
  }

  pub Account-keep :
      (start : FlushOutcome) (batch_id : BatchId) (chunk : List (Row U R)) (pending : Chunks U R)
      (q : Queue U R) (e : QueueError E) (b : SealedBatch)
      → q.retry ≡ []
      → q.dropped < 2 ^ 64
      → Account start
          (chunk ++ rows_of pending)
          q
          (keep e (batch_id, chunk) pending (record q { sent = q.sent ++ b ∷ [] }))
  Account-keep start batch_id chunk pending q e b none_kept bound = record {
    done = [];
    lost = [];
    reached = q.sent;
    tried = b ∷ [];
    delivered = refl;
    sent_all = refl;
    in_order = rw none_kept refl;
    counted = omega arith;
    left = refl;
    judged = (inl refl, omega arith);
  }

  Judged-accept :
      (start : FlushOutcome) (batch_id : BatchId) (chunk : List (Row U R)) (done : Chunks U R)
      (lost : List (Row U R)) (tried : List SealedBatch) (o : Outcome (QueueError E) FlushOutcome)
      (q : Queue U R)
      → Judged (record_sent batch_id chunk start) done lost tried o q
      → Judged start ((batch_id, chunk) ∷ done) lost tried o q
  Judged-accept start batch_id chunk done lost tried (ok outcome) q (l, t, r, ids, rows) = (
    l,
    t,
    r,
    ids ∙ append_assoc start.batch_ids (batch_id ∷ []) (ids_of done),
    omega (arith, rows, length-append chunk (rows_of done)),
  )
  Judged-accept start batch_id chunk done lost tried (err e) q j = j
  Judged-accept start batch_id chunk done lost tried panic q j = j

  pub Account-accept :
      (start : FlushOutcome) (batch_id : BatchId) (chunk : List (Row U R)) (pending : Chunks U R)
      (q : Queue U R) (frames : List ℕ) (n : ℕ) (r : PassResult U R E)
      → build_frames env chunk ≡ ok frames
      → length frames ≤ env.config.max_message_bytes
      → env.send (q.sent ++ seal env batch_id frames chunk ∷ []) ≡ accepted n
      → Account
          (record_sent batch_id chunk start)
          (rows_of pending)
          (record q { sent = q.sent ++ seal env batch_id frames chunk ∷ [] })
          r
      → Account start (chunk ++ rows_of pending) q r
  Account-accept start batch_id chunk pending q frames n r built fits taken a = record {
    done = (batch_id, chunk) ∷ a.done;
    lost = a.lost;
    reached = a.reached;
    tried = a.tried;
    delivered = (frames, built, fits, n, taken, a.delivered);
    sent_all = a.sent_all;
    in_order =
        append_assoc chunk (rows_of a.done) (a.lost ++ rows_of r.1.retry)
        ∙ ap (λ rows. chunk ++ rows) a.in_order;
    counted = a.counted;
    left = a.left;
    judged = Judged-accept start batch_id chunk a.done a.lost a.tried r.0 r.1 a.judged;
  }

  pub Account-split :
      (start : FlushOutcome) (mid : ℕ) (chunk : List (Row U R)) (pending : Chunks U R)
      (q : Queue U R) (minted : ℕ) (r : PassResult U R E)
      → Account start
          (take mid chunk ++ (drop mid chunk ++ rows_of pending))
          (record q { minted = minted })
          r
      → Account start (chunk ++ rows_of pending) q r
  Account-split start mid chunk pending q minted r a = record {
    done = a.done;
    lost = a.lost;
    reached = a.reached;
    tried = a.tried;
    delivered = a.delivered;
    sent_all = a.sent_all;
    in_order =
        a.in_order
        ∙ sym (append_assoc (take mid chunk) (drop mid chunk) (rows_of pending))
        ∙ ap (λ rows. rows ++ rows_of pending) (take-drop mid chunk);
    counted = a.counted;
    left = a.left;
    judged = a.judged;
  }

  pub Account-nil :
      (start : FlushOutcome) (q : Queue U R)
      → q.retry ≡ []
      → q.dropped < 2 ^ 64
      → Account start [] q (ok start, q)
  Account-nil start q none_kept bound = record {
    done = [];
    lost = [];
    reached = q.sent;
    tried = [];
    delivered = refl;
    sent_all = sym (append-nil q.sent);
    in_order = rw none_kept refl;
    counted = omega arith;
    left = refl;
    judged = (refl, refl, none_kept, sym (append-nil start.batch_ids), omega arith);
  }
