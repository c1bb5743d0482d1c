-- ===== src/Queue/Producer.antt =====
-- crates/wyrd-queue/src/producer.rs: the producer's handle and its background task. The handle and the
-- task share the counters, the depth and the state. A row is queued when the channel takes it, and the
-- channel's answers are an argument. A caller that is past its check of the state can queue its row while
-- a handler runs: the handlers that empty the channel are given these rows in groups, by the time at which
-- they arrive. The other handlers do not look at the channel again, so a row that arrives meanwhile is
-- queued in front of them or behind them.
pub mod Ingest
pub mod Channel
pub mod Drain
pub mod Loops
pub mod Handlers
pub mod Lifetime
use wyrd_core.Prelude.{
  ℕ, zero, suc, ◌+◌, ◌-◌, ◌*◌, ◌%◌, ◌^◌, Bool, true, false, List, [], ◌∷◌, ◌++◌, if◌then◌else◌,
  ◌==◌, leb, ltb, length, Outcome, ok, err, panic, ◌>>=◌,
}
use wyrd_core.Queue.{
  QueueError, queue_full, Row, BatchId, Setup, Queue, count_dropped, has_pending, seal_and_send,
  ingest,
}

-- The values of the state, which is a byte.
pub data Phase : Type 0 where
  running draining drained : Phase

abbrev pub is_running : Phase → Bool
is_running running = true
is_running _ = false

pub data TrySend : Type 0 where
  queued full closed : TrySend

pub record Producer (U R : Type 0) : Type 0 where
  pub channel : List (Row U R)
  pub queue : Queue U R
  pub channel_depth : ℕ
  pub accepted : ℕ
  pub phase : Phase

pub record Metrics : Type 0 where
  pub accepted : ℕ
  pub dropped : ℕ
  pub queue_depth : ℕ

-- `Producer::new`.
abbrev pub new_producer : {U R : Type 0} → Producer U R
new_producer = record {
  channel = [];
  queue = record { staging = []; retry = []; dropped = 0; minted = 0; sent = [] };
  channel_depth = 0;
  accepted = 0;
  phase = running;
}

-- `ENQUEUE_ATTEMPTS`.
abbrev pub enqueue_attempts : ℕ
enqueue_attempts = 3

abbrev pub lower_depth : ℕ → ℕ
lower_depth depth = (depth + (2 ^ 64 - 1)) % 2 ^ 64

module _ {U R : Type 0} where
  abbrev drop_row : Producer U R → Producer U R
  drop_row p = record p { queue = count_dropped 1 p.queue }

  -- The rows that callers send while a handler runs, each past its check of the state.
  abbrev pub arrive : List (Row U R) → Producer U R → Producer U R
  arrive rows p = record p {
    channel = p.channel ++ rows;
    accepted = (p.accepted + length rows) % 2 ^ 64;
    channel_depth = (p.channel_depth + length rows) % 2 ^ 64;
  }

  unfoldable pub arrive_all : List (List (Row U R)) → Producer U R → Producer U R
  arrive_all [] p = p
  arrive_all (group ∷ groups) p = arrive_all groups (arrive group p)

  unfoldable pub metrics : Producer U R → Metrics
  metrics p = record {
    accepted = p.accepted;
    dropped = p.queue.dropped;
    queue_depth = (p.channel_depth + length p.queue.staging) % 2 ^ 64;
  }

module _ {U R E : Type 0} where
  -- The attempts from number `attempt` on, `fuel` of them.
  unfoldable pub try_enqueue :
      ℕ
      → ℕ
      → (ℕ → TrySend)
      → Row U R
      → Producer U R
      → Outcome {0, 0} (QueueError E) Unit × Producer U R
  try_enqueue zero attempt answers row p = (err queue_full, drop_row p)
  try_enqueue (suc fuel) attempt answers row p = elim (answers attempt) [
    | queued ↦ (
      ok tt,
      record p {
        channel = p.channel ++ row ∷ [];
        accepted = (p.accepted + 1) % 2 ^ 64;
        channel_depth = (p.channel_depth + 1) % 2 ^ 64;
      },
    )
    | full ↦ try_enqueue fuel (suc attempt) answers row p
    | closed ↦ (err queue_full, drop_row p)
  ]

  unfoldable pub enqueue :
      (ℕ → TrySend) → Row U R → Producer U R → Outcome {0, 0} (QueueError E) Unit × Producer U R
  enqueue answers row p =
      if is_running p.phase
      then try_enqueue enqueue_attempts 0 answers row p
      else (err queue_full, drop_row p)

-- A result that is dropped, unless it is a panic.
abbrev ignore : {E A : Type 0} → Outcome (QueueError E) A → Outcome {0, 0} (QueueError E) Unit
ignore panic = panic
ignore _ = ok tt

-- The rows that wait on the channel go into staging.
unfoldable pub drain_rows :
    {U R B E : Type 0}
    → Setup U R B E
    → List (Row U R)
    → ℕ
    → Queue U R
    → Outcome (QueueError E) ℕ × Queue U R
drain_rows env [] depth q = (ok depth, q)
drain_rows env (row ∷ rows) depth q =
    let (result, q') = ingest env row q in
    let rest = drain_rows env rows (lower_depth depth) q' in
    elim result [ panic ↦ (panic, q') | _ ↦ rest ]

-- A pass leaves nothing pending or ends the loop, so two rounds are enough.
unfoldable pub drain_to_completion :
    {U R B E : Type 0}
    → Setup U R B E
    → ℕ
    → Queue U R
    → Outcome {0, 0} (QueueError E) Unit × Queue U R
drain_to_completion env zero q = (panic, q)
drain_to_completion env (suc fuel) q =
    let (result, q') = seal_and_send env q in
    let rest = drain_to_completion env fuel q' in
    if has_pending q
    then elim result [ ok _ ↦ rest | err e ↦ (err e, q') | panic ↦ (panic, q') ]
    else (ok tt, q)

-- The state after the last pass.
abbrev pub finish :
    {U R E : Type 0}
    → Outcome {0, 0} (QueueError E) Unit
    → Producer U R
    → Outcome {0, 0} (QueueError E) Unit × Producer U R
finish panic p = (panic, p)
finish out p = (out, record p { phase = drained })

module _ {U R B E : Type 0} (env : Setup U R B E) where
  -- The rows of the channel when no caller sends any more.
  unfoldable pub drain_rest : Producer U R → Outcome {0, 0} (QueueError E) Unit × Producer U R
  drain_rest p =
      let (result, q) = drain_rows env p.channel p.channel_depth p.queue in
      elim result [
        | ok depth ↦ (ok tt, record p { channel = []; channel_depth = depth; queue = q })
        | err e ↦ (err e, record p { queue = q })
        | panic ↦ (panic, record p { queue = q })
      ]

  -- The loop of `try_recv`. The groups are the rows that callers send meanwhile: one arrives before each
  -- try, and the groups behind the try that finds the channel empty are left to the caller.
  unfoldable pub drain_channel :
      List (List (Row U R))
      → Producer U R
      → Outcome {0, 0} (QueueError E) Unit × Producer U R × List (List (Row U R))
  drain_channel [] p = let (result, p') = drain_rest p in (result, p', [])
  drain_channel (group ∷ groups) p =
      let here = arrive group p in
      elim here.channel [
        | [] ↦ (ok tt, here, groups)
        | row ∷ rows ↦
            let (result, q) = ingest env row here.queue in
            let taken = record here {
              channel = rows;
              channel_depth = lower_depth here.channel_depth;
              queue = q;
            } in
            let rest = drain_channel groups taken in
            elim result [ panic ↦ (panic, taken, groups) | _ ↦ rest ]
      ]

  abbrev complete : Producer U R → Outcome {0, 0} (QueueError E) Unit × Producer U R
  complete p =
      let (result, q) = drain_to_completion env 2 p.queue in (result, record p { queue = q })

  -- `Ctrl::Flush`.
  unfoldable pub on_flush :
      List (List (Row U R)) → Producer U R → Outcome (QueueError E) (List BatchId) × Producer U R
  on_flush groups p =
      let (result, emptied, late) = drain_channel groups p in
      let p' = arrive_all late emptied in
      let (sealed, q) = seal_and_send env p'.queue in
      elim result [
        | panic ↦ (panic, p')
        | _ ↦ (sealed >>= λ outcome. ok outcome.batch_ids, record p' { queue = q })
      ]

  -- `Ctrl::Shutdown`: the task ends after it.
  unfoldable pub on_shutdown :
      List (List (Row U R)) → Producer U R → Outcome {0, 0} (QueueError E) Unit × Producer U R
  on_shutdown groups p =
      let (result, emptied, late) = drain_channel groups (record p { phase = draining }) in
      let p' = arrive_all late emptied in
      let (out, p'') = complete p' in elim result [ panic ↦ (panic, p') | _ ↦ finish out p'' ]

  -- A row from the channel, before the others.
  unfoldable pub on_row :
      Row U R → List (Row U R) → Producer U R → Outcome {0, 0} (QueueError E) Unit × Producer U R
  on_row row rows p =
      let (result, q) = ingest env row p.queue in
      let (sealed, q') = seal_and_send env q in
      let size = if leb env.config.flush_max_rows 0 then 1 else env.config.flush_max_rows in
      let p' = record p {
        channel = rows;
        channel_depth = lower_depth p.channel_depth;
        queue = q;
      } in
      elim result [
        | panic ↦ (panic, p')
        | _ ↦
            if leb size (length q.staging)
            then (ignore sealed, record p' { queue = q' })
            else (ok tt, p')
      ]

  -- The channel is closed and empty: the task ends after it.
  unfoldable pub on_closed : Producer U R → Outcome {0, 0} (QueueError E) Unit × Producer U R
  on_closed p = let (result, p') = complete p in (ignore result, p')

  -- The handle is gone: the task ends after it.
  unfoldable pub on_abandoned : Producer U R → Outcome {0, 0} (QueueError E) Unit × Producer U R
  on_abandoned p =
      let (result, p') = drain_rest p in
      let (out, p'') = complete p' in elim result [ panic ↦ (panic, p') | _ ↦ (ignore out, p'') ]

  unfoldable pub on_tick : Producer U R → Outcome {0, 0} (QueueError E) Unit × Producer U R
  on_tick p =
      let (sealed, q) = seal_and_send env p.queue in
      if ltb 0 (length p.queue.staging) then (ignore sealed, record p { queue = q }) else (ok tt, p)
