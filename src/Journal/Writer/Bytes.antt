-- ===== src/Journal/Writer/Bytes.antt =====
-- The bytes of a log on their way to the medium: what each operation of the writer promises.
use artisan.Prelude.{
  ℕ, ◌+◌, ◌≡◌, ◌⊎◌, false, List, [], ◌∷◌, ◌++◌, append-nil, append_assoc, arith, length, take,
}
use artisan.Errors.{Error, ok, err}
use artisan.Journal.Writer.{
  done, failed, Io, WalWriter, drain_to_os, flush, append_encoded, truncate, has_records,
}

-- Everything that was appended, written or not.
abbrev pub stream : WalWriter → List ℕ
stream w = w.file.os ++ w.pending

module _ (io : Io) (w w' : WalWriter) where
  drain_to_os_lem :
      drain_to_os io w ≡ (ok tt, w')
      → (w'.file.os ≡ stream w) × (w'.pending ≡ []) × (w'.file.durable ≡ w.file.durable)
  unfolding drain_to_os
  drain_to_os_lem h = ground (arith, append-nil w.file.os, append-nil (w.file.os ++ w.pending))

  -- A flush that succeeds puts every appended byte on the medium.
  pub flush-durable :
      flush io w ≡ (ok tt, w')
      → (w'.file.durable ≡ stream w) × (w'.file.os ≡ stream w) × (w'.pending ≡ [])
  unfolding flush drain_to_os
  flush-durable h = ground (arith, append-nil w.file.os, append-nil (w.file.os ++ w.pending))

  -- An append that succeeds adds its bytes to the stream and moves nothing on the medium.
  pub append_encoded-stream :
      (bytes : List ℕ)
      → append_encoded io bytes w ≡ (ok tt, w')
      → (stream w' ≡ stream w ++ bytes) × (w'.file.durable ≡ w.file.durable)
  unfolding append_encoded drain_to_os
  append_encoded-stream bytes h = ground (
    arith,
    append_assoc w.file.os w.pending bytes,
    append-nil (w.file.os ++ w.pending ++ bytes),
    append-nil w.file.os,
  )

  -- A flush that fails leaves the medium alone, or as the failed sync has left it.
  pub flush_failed :
      (e : Error)
      → flush io w ≡ (err e, w')
      → (w'.file.durable ≡ w.file.durable) ⊎ (w'.file.durable ≡ io.medium)
  unfolding flush drain_to_os
  flush_failed e h = ground arith

  -- After a truncation that succeeds the log is its header, on the medium too, and is counted so.
  truncate-header :
      truncate io w ≡ (ok tt, w')
      → (w'.file.os ≡ take 32 w.file.os)
        × (w'.file.durable ≡ take 32 w.file.os)
        × (w'.pending ≡ [])
        × (has_records w' ≡ false)
  unfolding truncate has_records
  truncate-header h = ground arith

pub append_encoded-durable :
    (io : Io) (w : WalWriter) (bytes : List ℕ)
    → (append_encoded io bytes w).1.file.durable ≡ w.file.durable
unfolding append_encoded drain_to_os
append_encoded-durable io w bytes = ground arith

-- A drain that failed after `n` bytes and is repeated writes these bytes again: the pending bytes
-- are not advanced past what `write_all` got to, so the first `n` of them stand twice in the file.
pub drain_to_os_repeated :
    (w : WalWriter) (io : Io) (n e : ℕ) (b : ℕ) (bs : List ℕ)
    → w.pending ≡ b ∷ bs
    → drain_to_os (record io { write = done }) (drain_to_os (record io { write = failed n e }) w).1
      ≡ (
        ok tt,
        record w {
          file = record {
            os = (w.file.os ++ take n w.pending) ++ w.pending;
            durable = w.file.durable;
          };
          pending = [];
          bytes_written = w.bytes_written + length w.pending;
        },
      )
unfolding drain_to_os
drain_to_os_repeated w io n e b bs h = ground arith
