-- ===== src/Queue.antt =====
-- crates/wyrd-queue/src/{config,sink,queue}.rs: the staging buffer of the record producer. The
-- background task owns it, so one pass runs at a time. `U` and `R` are the types of card UIDs and run
-- ids, `B` that of batch builders, and `E` that of the errors of a sink.
pub mod Steps
pub mod Rounds
pub mod Accounts
pub mod Pass
pub mod Ids
pub mod Resend
pub mod Producer
mod Tests
use wyrd_core.Prelude.{
  ℕ, zero, suc, ◌+◌, ◌-◌, ◌*◌, ◌/◌, ◌%◌, ◌^◌, Bool, true, false, not, ◌||◌, Option, none, some,
  List, [], ◌∷◌, ◌++◌, if◌then◌else◌, ◌==◌, ltb, leb, length, take, drop, Outcome, ok, err, panic,
  ◌>>=◌,
}
use wyrd_core.Prelude.Text.{Text, codes}
use wyrd_core.Reference.{CardRef}

pub record QueueConfig : Type 0 where
  pub channel_capacity : ℕ
  pub staging_capacity : ℕ
  pub flush_max_rows : ℕ
  pub flush_interval_ms : ℕ
  pub flush_timeout_ms : ℕ
  pub max_message_bytes : ℕ

abbrev pub default_config : QueueConfig
default_config = record {
  channel_capacity = 1024;
  staging_capacity = 4096;
  flush_max_rows = 50000;
  flush_interval_ms = 1000;
  flush_timeout_ms = 30000;
  max_message_bytes = 4 * 1024 * 1024;
}

-- `WyrdQueueError`.
pub data QueueError (E : Type 0) : Type 0 where
  queue_full flush_timeout payload_too_large : QueueError E
  schema_parse reserved_column : Text → QueueError E
  sink_error : E → QueueError E

pub record Row (U R : Type 0) : Type 0 where
  pub json : List ℕ
  pub card_ref : CardRef U
  pub run_id : Option R

abbrev pub BatchId : Type 0
BatchId = List ℕ

pub record SealedBatch : Type 0 where
  pub table : Text
  pub batch_id : BatchId
  pub frames : List ℕ
  pub rows : ℕ

-- What comes of a send under a deadline.
pub data Sent (E : Type 0) : Type 0 where
  accepted : ℕ → Sent E
  refused : E → Sent E
  elapsed : Sent E

pub record FlushOutcome : Type 0 where
  pub batch_ids : List BatchId
  pub rows_flushed : ℕ

-- What a queue is built over: its table and configuration, the batch builder of its schema, the UTF-8
-- decoder, the `n`-th UUID that is minted, and the sink, which answers the last batch of those sent.
pub record Setup (U R B E : Type 0) : Type 0 where
  pub table : Text
  pub config : QueueConfig
  pub new_builder : B
  pub from_utf8 : List ℕ → Outcome Text Text
  pub append_json_row : B → Text → CardRef U → Option R → Outcome (QueueError E) B
  pub finish_ipc : B → Outcome (QueueError E) (List ℕ)
  pub now_v7 : ℕ → BatchId
  pub send : List SealedBatch → Sent E

-- Chunks of rows with their ids.
abbrev pub Chunks : Type 0 → Type 0 → Type 0
Chunks U R = List (BatchId × List (Row U R))

-- The staging and retry buffers, the drop counter, the number of ids minted, and all batches sent.
pub record Queue (U R : Type 0) : Type 0 where
  pub staging : List (Row U R)
  pub retry : Chunks U R
  pub dropped : ℕ
  pub minted : ℕ
  pub sent : List SealedBatch

abbrev pub PassResult : Type 0 → Type 0 → Type 0 → Type 0
PassResult U R E = Outcome (QueueError E) FlushOutcome × Queue U R

abbrev pub record_sent : {U R : Type 0} → BatchId → List (Row U R) → FlushOutcome → FlushOutcome
record_sent batch_id chunk outcome = record {
  batch_ids = outcome.batch_ids ++ batch_id ∷ [];
  rows_flushed = outcome.rows_flushed + length chunk;
}

module _ {U R : Type 0} where
  -- `fetch_add` on a 64-bit counter.
  abbrev pub count_dropped : ℕ → Queue U R → Queue U R
  count_dropped n q = record q { dropped = (q.dropped + n) % 2 ^ 64 }

  unfoldable pub has_pending : Queue U R → Bool
  has_pending q = not (length q.staging == 0) || not (length q.retry == 0)

  -- The rounds that a list of chunks can take: a chunk of `n` rows is split `n - 1` times at most.
  abbrev pub work : Chunks U R → ℕ
  work [] = 0
  work ((batch_id, chunk) ∷ pending) = 1 + 2 * (length chunk - 1) + work pending

module _ {U R E : Type 0} where
  -- A pass ends in an error: what is still pending goes behind the retry buffer.
  abbrev pub fail : QueueError E → Chunks U R → Queue U R → PassResult U R E
  fail e pending q = (err e, record q { retry = q.retry ++ pending })

  -- A send of a chunk failed: the chunk goes to the front of the retry buffer first.
  abbrev pub keep :
      QueueError E → BatchId × List (Row U R) → Chunks U R → Queue U R → PassResult U R E
  keep e chunk pending q = fail e pending (record q { retry = chunk ∷ q.retry })

module _ {U R B E : Type 0} where
  -- `ArrayQueue::push` on the staging buffer: false when it is full.
  unfoldable pub push : Setup U R B E → Row U R → Queue U R → Bool × Queue U R
  push env row q =
      let capacity = if leb env.config.staging_capacity 0 then 1 else env.config.staging_capacity in
      if ltb (length q.staging) capacity
      then (true, record q { staging = q.staging ++ row ∷ [] })
      else (false, q)

  unfoldable pub append_rows : Setup U R B E → List (Row U R) → B → Outcome (QueueError E) B
  append_rows env [] builder = ok builder
  append_rows env (row ∷ rows) builder = elim (env.from_utf8 row.json) [
    | panic ↦ panic
    | err e ↦ err (schema_parse (codes "row is not UTF-8: " ++ e))
    | ok json ↦ env.append_json_row builder json row.card_ref row.run_id >>= append_rows env rows
  ]

  unfoldable pub build_frames : Setup U R B E → List (Row U R) → Outcome (QueueError E) (List ℕ)
  build_frames env rows = append_rows env rows env.new_builder >>= env.finish_ipc

  -- The rows of the staging buffer in chunks of at most `size`, each under the next id. Every round
  -- takes a row at least, so the fuel is the number of rows.
  unfoldable pub seal_rows : Setup U R B E → ℕ → ℕ → List (Row U R) → ℕ → Chunks U R × ℕ
  seal_rows env fuel size [] minted = ([], minted)
  seal_rows env zero size (row ∷ rows) minted = ([], minted)
  seal_rows env (suc fuel) size (row ∷ rows) minted =
      let (chunks, minted') = seal_rows env fuel size (drop size (row ∷ rows)) (suc minted) in
      ((env.now_v7 minted, take size (row ∷ rows)) ∷ chunks, minted')

  abbrev pub seal : Setup U R B E → BatchId → List ℕ → List (Row U R) → SealedBatch
  seal env batch_id frames chunk = record {
    table = env.table;
    batch_id = batch_id;
    frames = frames;
    rows = length chunk;
  }

  -- The loop over the pending chunks.
  unfoldable pub seal_loop :
      Setup U R B E → ℕ → Chunks U R → FlushOutcome → Queue U R → PassResult U R E
  seal_loop env zero pending outcome q = (panic, q)
  seal_loop env (suc fuel) [] outcome q = (ok outcome, q)
  seal_loop env (suc fuel) ((batch_id, chunk) ∷ pending) outcome q = elim (build_frames env chunk) [
    | panic ↦ (panic, q)
    | err e ↦ fail e pending (count_dropped (length chunk) q)
    | ok frames ↦
        let mid = length chunk / 2 in
        let sent = q.sent ++ seal env batch_id frames chunk ∷ [] in
        let q' = record q { sent = sent } in
        elim (ltb env.config.max_message_bytes (length frames)) [
          | true ↦ elim (leb (length chunk) 1) [
            | true ↦ fail payload_too_large pending (count_dropped (length chunk) q)
            | false ↦
                seal_loop env fuel
                  ((batch_id, take mid chunk) ∷ (env.now_v7 q.minted, drop mid chunk) ∷ pending)
                  outcome (record q { minted = suc q.minted })
          ]
          | false ↦ elim (env.send sent) [
            | accepted _ ↦ seal_loop env fuel pending (record_sent batch_id chunk outcome) q'
            | refused e ↦ keep (sink_error e) (batch_id, chunk) pending q'
            | elapsed ↦ keep flush_timeout (batch_id, chunk) pending q'
          ]
        ]
  ]

  unfoldable pub seal_and_send : Setup U R B E → Queue U R → PassResult U R E
  seal_and_send env q =
      let chunk_size = if leb env.config.flush_max_rows 0 then 1 else env.config.flush_max_rows in
      let (chunks, minted) = seal_rows env (length q.staging) chunk_size q.staging q.minted in
      let pending = q.retry ++ chunks in
      seal_loop env (suc (work pending)) pending (record { batch_ids = []; rows_flushed = 0 })
        (record q { staging = []; retry = []; minted = minted })

  -- A row that does not fit makes room by a pass, and an error of the pass is dropped.
  unfoldable pub ingest :
      Setup U R B E → Row U R → Queue U R → Outcome {0, 0} (QueueError E) Unit × Queue U R
  ingest env row q =
      let (fits, q') = push env row q in
      let (result, made) = seal_and_send env q in
      let (fits', q'') = push env row made in
      if fits then (ok tt, q') else elim result [
        | panic ↦ (panic, made)
        | _ ↦ (ok tt, if fits' then q'' else count_dropped 1 made)
      ]

  unfoldable pub flush : Setup U R B E → Queue U R → Outcome (QueueError E) ℕ × Queue U R
  flush env q =
      let (result, q') = seal_and_send env q in (result >>= λ outcome. ok outcome.rows_flushed, q')
