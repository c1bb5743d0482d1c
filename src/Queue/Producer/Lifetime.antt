-- ===== src/Queue/Producer/Lifetime.antt =====
-- crates/wyrd-queue/src/producer.rs: the steps of a producer, and batch ids over its lifetime.
use wyrd_core.Prelude.{ℕ, ◌≡◌, List, [], ◌∷◌}
use wyrd_core.Queue.{Row, Setup}
use wyrd_core.Queue.Ids.{Alike}
use wyrd_core.Queue.Producer.{
  Producer, TrySend, enqueue, new_producer, on_flush, on_shutdown, on_row, on_closed, on_abandoned,
  on_tick,
}
use wyrd_core.Queue.Producer.Loops.{Sound}
use wyrd_core.Queue.Producer.Handlers.{
  enqueue-Sound, on_flush-Sound, on_shutdown-Sound, on_row-Sound, on_closed-Sound,
  on_abandoned-Sound, on_tick-Sound,
}

module _ {U R B E : Type 0} (env : Setup U R B E) where
  -- A call of `enqueue`, or a branch of the task, with the rows that arrive while it empties the channel.
  pub data Step : Producer U R → Producer U R → Type 0 where
    enqueued :
        (answers : ℕ → TrySend) (row : Row U R) (p : Producer U R)
        → Step p (enqueue {E = E} answers row p).1
    flushed : (groups : List (List (Row U R))) (p : Producer U R) → Step p (on_flush env groups p).1
    shut : (groups : List (List (Row U R))) (p : Producer U R) → Step p (on_shutdown env groups p).1
    taken :
        (row : Row U R) (rows : List (Row U R)) (p : Producer U R)
        → p.channel ≡ row ∷ rows
        → Step p (on_row env row rows p).1
    ended : (p : Producer U R) → p.channel ≡ [] → Step p (on_closed env p).1
    abandoned : (p : Producer U R) → Step p (on_abandoned env p).1
    ticked : (p : Producer U R) → Step p (on_tick env p).1

  -- Any number of steps.
  pub data Steps : Producer U R → Producer U R → Type 0 where
    stay : (p : Producer U R) → Steps p p
    onward : {p q r : Producer U R} → Step p q → Steps q r → Steps p r

  module _ (unique : (i j : ℕ) → env.now_v7 i ≡ env.now_v7 j → i ≡ j) where
    Step-Sound : (p q : Producer U R) → Step p q → Sound env p.queue → Sound env q.queue
    Step-Sound p _ (enqueued answers row _) s = enqueue-Sound env answers row p s
    Step-Sound p _ (flushed groups _) s = on_flush-Sound env unique groups p s
    Step-Sound p _ (shut groups _) s = on_shutdown-Sound env unique groups p s
    Step-Sound p _ (taken row rows _ h) s = on_row-Sound env unique row rows p s
    Step-Sound p _ (ended _ h) s = on_closed-Sound env unique p s
    Step-Sound p _ (abandoned _) s = on_abandoned-Sound env unique p s
    Step-Sound p _ (ticked _) s = on_tick-Sound env unique p s

    Steps-Sound : (p q : Producer U R) → Steps p q → Sound env p.queue → Sound env q.queue
    Steps-Sound p _ (stay _) s = s
    Steps-Sound p r (onward {q = q} step steps) s = Steps-Sound q r steps (Step-Sound p q step s)

    -- Under UUIDs that are never minted twice, no two different batches are ever sent under one id:
    -- whatever steps a new producer takes, of its callers and its task, with any answers of the channel and
    -- of the sink, two batches that were sent with one id are equal in table, frames and number of rows.
    pub Steps-Alike : (p : Producer U R) → Steps new_producer p → Alike p.queue.sent
    Steps-Alike p steps =
        (Steps-Sound new_producer p steps
          (record { known = tt; known_sent = tt; distinct = tt; sent_as = tt; alike = tt })).alike
