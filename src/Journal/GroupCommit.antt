-- ===== src/Journal/GroupCommit.antt =====
-- `write_append_batch` of journal/group_commit.rs: the worker writes the records of a batch, and
-- syncs once if any of them asks for it. The mutex of the writer is held all the while.
pub mod Durable
use artisan.Prelude.{
  ℕ, ◌+◌, ◌≤◌, ◌≡◌, Bool, true, false, List, [], ◌∷◌, ◌++◌, max, arith, ap, ◌∙◌, refl,
}
use artisan.Errors.{Outcome, ok, err, panic, out_of_fuel}
use artisan.Journal.Writer.{Io, WalWriter, Step, append_encoded, flush}

-- A record that waits for the worker.
pub record AppendRequest : Type 0 where
  pub bytes : List ℕ
  pub seq : ℕ

pub record WorkerState : Type 0 where
  pub writer : WalWriter
  pub written_work : ℕ
  pub flushed_work : ℕ

-- The writer after the records that went in, with the highest of their sequences.
pub record Appended : Type 0 where
  pub result : Outcome (Unit {0})
  pub writer : WalWriter
  pub written_seq : ℕ

-- `append_encoded(…)?` in the loop, and the rounds that follow it.
abbrev pub append_next : Step → ℕ → (WalWriter → Appended) → Appended
append_next (ok u, w) written_seq k = k w
append_next (err e, w) written_seq k = record {
  result = err e;
  writer = w;
  written_seq = written_seq;
}
append_next (panic, w) written_seq k = record {
  result = panic;
  writer = w;
  written_seq = written_seq;
}
append_next (out_of_fuel, w) written_seq k = record {
  result = out_of_fuel;
  writer = w;
  written_seq = written_seq;
}

-- The loop over a batch; the results of the system calls of its rounds are `io 0`, `io 1`, ….
unfoldable pub append_all : (ℕ → Io) → ℕ → List AppendRequest → ℕ → WalWriter → Appended
unfolding append_encoded
append_all io i [] written_seq w = record { result = ok tt; writer = w; written_seq = written_seq }
append_all io i (req ∷ batch) written_seq w =
    append_next (append_encoded (io i) req.bytes w) written_seq
      (λ w'. append_all io (i + 1) batch (max written_seq req.seq) w')

abbrev pub max_seq : List AppendRequest → ℕ
max_seq [] = 0
max_seq (req ∷ batch) = max req.seq (max_seq batch)

abbrev pub after_flush : Step → ℕ → WorkerState → Outcome (Unit {0}) × WorkerState
after_flush (ok u, w) durable_seq k =
    (ok tt, record k { writer = w; flushed_work = max k.flushed_work durable_seq })
after_flush (err e, w) durable_seq k = (err e, record k { writer = w })
after_flush (panic, w) durable_seq k = (panic, record k { writer = w })
after_flush (out_of_fuel, w) durable_seq k = (out_of_fuel, record k { writer = w })

abbrev pub after_append :
    Outcome (Unit {0}) → Io → Bool → ℕ → WorkerState → Outcome (Unit {0}) × WorkerState
after_append (ok u) io true durable_seq k = after_flush (flush io k.writer) durable_seq k
after_append (ok u) io false durable_seq k = (ok tt, k)
after_append e io needs_sync durable_seq k = (e, k)

-- The counter of written work moves only when the whole batch went in.
abbrev pub count_written : Appended → WorkerState → WorkerState
count_written a k = elim a.result [
  | ok u ↦ record k { writer = a.writer; written_work = max k.written_work a.written_seq }
  | _ ↦ record k { writer = a.writer }
]

unfoldable pub write_append_batch :
    (ℕ → Io) → Io → List AppendRequest → Bool → WorkerState → Outcome (Unit {0}) × WorkerState
write_append_batch io flush_io batch needs_sync k =
    let a = append_all io 0 batch 0 k.writer in
    after_append a.result flush_io needs_sync (max_seq batch) (count_written a k)
