-- ===== src/Journal/GroupCommit/Durable.antt =====
-- What the worker promises of a batch: the acknowledgements follow the medium.
use artisan.Prelude.{
  ℕ, ◌+◌, ◌≡◌, ◌⊎◌, Bool, true, false, List, [], ◌∷◌, ◌++◌, max, arith, ap, ◌∙◌, refl, sym,
  append-nil, append_assoc,
}
use artisan.Errors.{Error, ok, err, panic, out_of_fuel}
use artisan.Journal.Writer.{Io, WalWriter, Step, append_encoded}
use artisan.Journal.Writer.Bytes.{
  stream, flush-durable, flush_failed, append_encoded-stream, append_encoded-durable,
}
use artisan.Journal.GroupCommit.{
  AppendRequest, WorkerState, Appended, append_next, append_all, max_seq, write_append_batch,
}

abbrev pub batch_bytes : List AppendRequest → List ℕ
batch_bytes [] = []
batch_bytes (req ∷ batch) = req.bytes ++ batch_bytes batch

-- Every record went in, in order.
append_next-ok :
    (r : Step) (n : ℕ) (k : WalWriter → Appended)
    → (append_next r n k).result ≡ ok tt
    → (w : WalWriter) × (r ≡ (ok tt, w)) × (append_next r n k ≡ k w)
append_next-ok (ok u, w) n k h = (w, refl, refl)
append_next-ok (err e, w) n k h = absurd (cc h)
append_next-ok (panic, w) n k h = absurd (cc h)
append_next-ok (out_of_fuel, w) n k h = absurd (cc h)

pub append_all_ok :
    (io : ℕ → Io) (i : ℕ) (batch : List AppendRequest) (n : ℕ) (w : WalWriter)
    → let a = append_all io i batch n w in
      a.result ≡ ok tt
      → (stream a.writer ≡ stream w ++ batch_bytes batch)
        × (a.writer.file.durable ≡ w.file.durable)
        × (a.written_seq ≡ max n (max_seq batch))
unfolding append_all
append_all_ok io i [] n w h = (sym (append-nil (stream w)), refl, omega arith)
append_all_ok io i (req ∷ batch) n w h =
    let next = λ (w' : WalWriter). append_all io (i + 1) batch (max n req.seq) w' in
    let (w1, wrote, goes_on) = append_next-ok (append_encoded (io i) req.bytes w) n next h in
    let (s1, d1) = append_encoded-stream (io i) w w1 req.bytes wrote in
    let (s2, d2, m2) =
      append_all_ok io (i + 1) batch (max n req.seq) w1
        (ap (λ (a : Appended). a.result) (sym goes_on) ∙ h) in
    rw goes_on (
      s2
          ∙ ap (λ t. t ++ batch_bytes batch) s1
          ∙ append_assoc (stream w) req.bytes (batch_bytes batch),
      d2 ∙ d1,
      m2 ∙ omega arith,
    )

append_next-durable :
    (r : Step) (n : ℕ) (k : WalWriter → Appended)
    → ((w : WalWriter) → (k w).writer.file.durable ≡ w.file.durable)
    → (append_next r n k).writer.file.durable ≡ r.1.file.durable
append_next-durable (ok u, w) n k h = h w
append_next-durable (err e, w) n k h = refl
append_next-durable (panic, w) n k h = refl
append_next-durable (out_of_fuel, w) n k h = refl

-- Whatever happens in a batch, nothing on the medium moves before the flush.
append_all-durable :
    (io : ℕ → Io) (i : ℕ) (batch : List AppendRequest) (n : ℕ) (w : WalWriter)
    → (append_all io i batch n w).writer.file.durable ≡ w.file.durable
unfolding append_all
append_all-durable io i [] n w = refl
append_all-durable io i (req ∷ batch) n w =
    append_next-durable (append_encoded (io i) req.bytes w) n
      (λ w'. append_all io (i + 1) batch (max n req.seq) w')
      (λ w'. append_all-durable io (i + 1) batch (max n req.seq) w')
    ∙ append_encoded-durable (io i) w req.bytes

module _ (io : ℕ → Io) (flush_io : Io) (batch : List AppendRequest) (k k' : WorkerState) where
  -- If a batch that asks for a sync is acknowledged, all its bytes, and all that was appended before
  -- them, are on the medium in order, and the flushed and the written work have reached its sequences.
  pub write_append_batch-durable :
      write_append_batch io flush_io batch true k ≡ (ok tt, k')
      → (k'.writer.file.durable ≡ stream k.writer ++ batch_bytes batch)
        × (k'.flushed_work ≡ max k.flushed_work (max_seq batch))
        × (k'.written_work ≡ max k.written_work (max_seq batch))
  unfolding write_append_batch
  write_append_batch-durable h = ground (
    arith,
    append_all_ok io 0 batch 0 k.writer,
    flush-durable flush_io (append_all io 0 batch 0 k.writer).writer k'.writer,
  )

  -- If a batch fails anywhere, the flushed work does not move, and the medium is as it was, or as the
  -- failed sync has left it.
  pub write_append_batch_failed :
      (needs_sync : Bool) (e : Error)
      → write_append_batch io flush_io batch needs_sync k ≡ (err e, k')
      → (k'.flushed_work ≡ k.flushed_work)
        × ((k'.writer.file.durable ≡ k.writer.file.durable)
            ⊎ (k'.writer.file.durable ≡ flush_io.medium))
  unfolding write_append_batch
  write_append_batch_failed true e h = ground (
    arith,
    append_all-durable io 0 batch 0 k.writer,
    flush_failed flush_io (append_all io 0 batch 0 k.writer).writer k'.writer e,
  )
  write_append_batch_failed false e h = ground (arith, append_all-durable io 0 batch 0 k.writer)
