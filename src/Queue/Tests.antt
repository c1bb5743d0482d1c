-- ===== src/Queue/Tests.antt =====
-- Passes over concrete rows.
use wyrd_core.Prelude.{
  ℕ, ◌≡◌, none, List, [], ◌∷◌, ◌++◌, length, ok, err, arith, refl, ap, if◌then◌else◌, ◌==◌,
}
use wyrd_core.Prelude.Text.{codes}
use wyrd_core.Reference
use wyrd_core.Reference.{CardRef}
use wyrd_core.Queue.{
  QueueConfig, flush_timeout, Row, accepted, elapsed, Setup, Queue, push, has_pending, append_rows,
  build_frames, seal_rows, seal_loop, seal_and_send, ingest,
}
use wyrd_core.Queue.Accounts.{rows_of, emptied, PassOf}
use wyrd_core.Queue.Pass.{seal_and_send-PassOf}
use wyrd_core.Queue.Ids.{Alike, Stable}
use wyrd_core.Queue.Producer.Lifetime.{Steps, stay, onward, enqueued, taken, shut, Steps-Alike}
use wyrd_core.Queue.Resend.{seal_and_send-Stable}
use wyrd_core.Queue.Producer.{
  Producer, running, on_shutdown, arrive_all, drain_channel, drain_rest, drain_rows,
  drain_to_completion, new_producer, try_enqueue, enqueue, on_row, full, queued, TrySend,
}
use wyrd_core.Queue.Producer.Ingest.{Staged, ingest-Staged}
use wyrd_core.Queue.Producer.Drain.{Drained, on_shutdown-Drained}

abbrev config : QueueConfig
config = record {
  channel_capacity = 4;
  staging_capacity = 2;
  flush_max_rows = 2;
  flush_interval_ms = 0;
  flush_timeout_ms = 10;
  max_message_bytes = 3;
}

-- Frames are the bytes of the rows, ids are numbered, and the sink times out on the first send alone.
abbrev env : Setup ℕ ℕ (List ℕ) ℕ
env = record {
  table = codes "t";
  config = config;
  new_builder = [];
  from_utf8 = λ bytes. ok bytes;
  append_json_row = λ builder json card_ref run_id. ok (builder ++ json);
  finish_ipc = λ builder. ok builder;
  now_v7 = λ n. n ∷ [];
  send = λ sent. if length sent == 1 then elapsed else accepted 1;
}

abbrev row : ℕ → Row ℕ ℕ
row n = record {
  json = n ∷ n ∷ [];
  card_ref = record {
    kind = Reference.service;
    name = codes "shop";
    version = record { value = codes "1.0.0" };
    space = none;
    uid = none;
  };
  run_id = none;
}

abbrev staged : Queue ℕ ℕ
staged = record { staging = row 1 ∷ row 2 ∷ []; retry = []; dropped = 0; minted = 0; sent = [] }

-- The two rows are too large for one batch: they are split, and the first half waits with its id.
late : (seal_and_send env staged).0 ≡ err flush_timeout
unfolding seal_and_send seal_loop seal_rows build_frames append_rows
late = refl

late_retry : (seal_and_send env staged).1.retry ≡ (0 ∷ [], row 1 ∷ []) ∷ (1 ∷ [], row 2 ∷ []) ∷ []
unfolding seal_and_send seal_loop seal_rows build_frames append_rows
late_retry = refl

-- The next pass sends both, the first under the same id.
again :
    (seal_and_send env (seal_and_send env staged).1).0
    ≡ ok (record { batch_ids = (0 ∷ []) ∷ (1 ∷ []) ∷ []; rows_flushed = 2 })
unfolding seal_and_send seal_loop seal_rows build_frames append_rows
again = refl

abbrev producer : Producer ℕ ℕ
producer = record {
  channel = row 3 ∷ [];
  queue = staged;
  channel_depth = 1;
  accepted = 3;
  phase = running;
}

-- Two callers are past their check of the state when it shuts down. The row of the first arrives while
-- the channel is emptied, that of the second after it.
abbrev senders : List (List (Row ℕ ℕ))
senders = (row 4 ∷ []) ∷ [] ∷ [] ∷ (row 5 ∷ []) ∷ []

-- A shutdown of it: the rows of the channel make room by passes, and the last pass sends all that is left
-- but the row that came too late, which stays on the channel.
closed_down : (on_shutdown env senders producer).0 ≡ ok tt
unfolding on_shutdown arrive_all drain_channel drain_rest drain_rows drain_to_completion has_pending
    ingest push seal_and_send seal_loop seal_rows build_frames append_rows
closed_down = refl

too_late : (on_shutdown env senders producer).1.channel ≡ row 5 ∷ []
unfolding on_shutdown arrive_all drain_channel drain_rest drain_rows drain_to_completion has_pending
    ingest push seal_and_send seal_loop seal_rows build_frames append_rows
too_late = refl

seal_and_send-PassOf_example :
    PassOf env
      (record { batch_ids = []; rows_flushed = 0 })
      (rows_of staged.retry ++ staged.staging)
      (emptied staged)
      (seal_and_send env staged)
seal_and_send-PassOf_example = seal_and_send-PassOf env staged (omega arith)

-- The value of an id.
abbrev number : List ℕ → ℕ
number [] = 0
number (n ∷ _) = n

ids-differ : (i j : ℕ) → env.now_v7 i ≡ env.now_v7 j → i ≡ j
ids-differ i j same = ap number same

staged-Stable : Stable env staged.retry staged.minted staged.sent
staged-Stable = record { known = tt; known_sent = tt; distinct = tt; sent_as = tt; alike = tt }

seal_and_send-Stable_example :
    let q = (seal_and_send env staged).1 in Stable env q.retry q.minted q.sent
seal_and_send-Stable_example = seal_and_send-Stable env ids-differ staged staged-Stable

ingest-Staged_example : Staged env (row 3) staged (ingest env (row 3) staged)
ingest-Staged_example = ingest-Staged env (row 3) staged

on_shutdown-Drained_example : Drained env senders producer (on_shutdown env senders producer)
on_shutdown-Drained_example = on_shutdown-Drained env senders producer (omega arith)

-- The channel is full at the first attempt. A row is enqueued, the task takes it, and a shutdown follows.
abbrev answered : ℕ → TrySend
answered attempt = if attempt == 0 then full else queued

abbrev one_waits : Producer ℕ ℕ
one_waits = (enqueue {E = ℕ} answered (row 1) new_producer).1

abbrev one_taken : Producer ℕ ℕ
one_taken = (on_row env (row 1) [] one_waits).1

abbrev at_end : Producer ℕ ℕ
at_end = (on_shutdown env [] one_taken).1

waits : one_waits.channel ≡ row 1 ∷ []
unfolding enqueue try_enqueue
waits = refl

lifetime : Steps env new_producer at_end
lifetime =
    onward (enqueued answered (row 1) new_producer)
      (onward (taken (row 1) [] one_waits waits) (onward (shut [] one_taken) (stay at_end)))

Steps-Alike_example : Alike at_end.queue.sent
Steps-Alike_example = Steps-Alike env ids-differ at_end lifetime
