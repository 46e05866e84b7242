-- ===== src/Tests/Writer.antt =====
-- The file writer and the group commit at concrete inputs.
use artisan.Prelude.{◌⊎◌, ◌≡◌, refl, Bool, true, false, List, [], ◌∷◌, ◌++◌, arith, take, drop, max}
use artisan.Prelude.Bytes.{le_bytes}
use artisan.Errors.{blob_store_io, ok}
use artisan.Journal.Reader.Log.{log_wire}
use artisan.Journal.Writer.{
  Io, done, failed, WalWriter, flush, truncate, append_encoded, drain_to_os, has_records,
}
use artisan.Journal.Writer.Bytes.{stream, append_encoded-stream, drain_to_os_repeated}
use artisan.Journal.Writer.Crash.{Replayed, replay-flush}
use artisan.Journal.GroupCommit.{AppendRequest, WorkerState, write_append_batch, append_all}
use artisan.Journal.GroupCommit.Durable.{
  write_append_batch-durable, write_append_batch_failed, batch_bytes,
}
use artisan.Journal.Decode.{encode_file_header}
use artisan.Journal.Writer.{open_or_create}
use artisan.Journal.Writer.Reopen.{opened, open_or_create-open_or_create}
use artisan.Prelude.{none, some}
use artisan.Errors.{replay_sanity_failed, err}
use artisan.Tests.Data.{
  checksum, collect, header, put_record, erase_record, put-IsLogged, erase-IsLogged, all_done,
  one_pending,
}

-- A flushed record, and five bytes of the next one.
replay-flush_example :
    Replayed checksum collect header
      (put_record ∷ [])
      (erase_record ∷ [])
      ((flush all_done one_pending).1.file.durable
        ++ take 5 (log_wire checksum (erase_record ∷ [])))
      (take 5 (log_wire checksum (erase_record ∷ [])))
      []
unfolding le_bytes flush drain_to_os
replay-flush_example =
    replay-flush checksum collect header (put_record ∷ []) (erase_record ∷ []) all_done one_pending
      (flush all_done one_pending).1 (take 5 (log_wire checksum (erase_record ∷ [])))
      (drop 5 (log_wire checksum (erase_record ∷ []))) [] (omega arith) (omega arith)
      (put-IsLogged, tt) (erase-IsLogged, tt) refl refl refl

abbrev disk_full : Io
disk_full = record { write = failed 3 28; sync = done; set_len = done; medium = [] }

-- The sync fails after the write, and the medium is left with one byte.
abbrev sync_broken : Io
sync_broken = record { write = done; sync = failed 0 5; set_len = done; medium = 1 ∷ [] }

abbrev requests : List AppendRequest
requests = record { bytes = log_wire checksum (erase_record ∷ []); seq = 6 } ∷ []

abbrev worker : WorkerState
worker = record { writer = one_pending; written_work = 5; flushed_work = 0 }

abbrev after_batch : Bool → Io → WorkerState
after_batch needs_sync io = (write_append_batch (λ i. all_done) io requests needs_sync worker).1

write_append_batch-durable_example :
    ((after_batch true all_done).writer.file.durable ≡ stream one_pending ++ batch_bytes requests)
    × ((after_batch true all_done).flushed_work ≡ max 0 6)
    × ((after_batch true all_done).written_work ≡ max 5 6)
unfolding le_bytes flush drain_to_os write_append_batch append_encoded append_all
write_append_batch-durable_example =
    write_append_batch-durable (λ i. all_done) all_done requests worker (after_batch true all_done)
      refl

write_append_batch_failed_example :
    ((after_batch true sync_broken).flushed_work ≡ 0)
    × (((after_batch true sync_broken).writer.file.durable ≡ one_pending.file.durable)
        ⊎ ((after_batch true sync_broken).writer.file.durable ≡ 1 ∷ []))
unfolding le_bytes flush drain_to_os write_append_batch append_encoded append_all
write_append_batch_failed_example =
    write_append_batch_failed (λ i. all_done) sync_broken requests worker
      (after_batch true sync_broken) true (blob_store_io 5) refl

drain_to_os_repeated_example : drain_to_os all_done (drain_to_os disk_full one_pending).1 ≡ (
  ok tt,
  record one_pending {
    file = record {
      os = (one_pending.file.os ++ take 3 one_pending.pending) ++ one_pending.pending;
      durable = one_pending.file.durable;
    };
    pending = [];
    bytes_written = 72;
  },
)
unfolding le_bytes
drain_to_os_repeated_example = drain_to_os_repeated one_pending all_done 3 28 82 _ refl

append_encoded-stream_example :
    (stream (append_encoded all_done (1 ∷ 2 ∷ []) one_pending).1
      ≡ stream one_pending ++ (1 ∷ 2 ∷ []))
    × ((append_encoded all_done (1 ∷ 2 ∷ []) one_pending).1.file.durable ≡ one_pending.file.durable)
unfolding le_bytes append_encoded drain_to_os
append_encoded-stream_example =
    append_encoded-stream all_done one_pending (append_encoded all_done (1 ∷ 2 ∷ []) one_pending).1
      (1 ∷ 2 ∷ []) refl

abbrev truncated : WalWriter
truncated = (truncate all_done (flush all_done one_pending).1).1

open_or_create-open_or_create_example :
    (open_or_create all_done 1000 none 7 ≡ ok (opened header [] (encode_file_header header [])))
    × (has_records (opened header [] (encode_file_header header [])) ≡ false)
    × (open_or_create all_done 2000
          (some (record { os = encode_file_header header [] ++ (1 ∷ 2 ∷ []); durable = [] }))
          7
        ≡ ok (opened header (1 ∷ 2 ∷ []) []))
    × (open_or_create all_done 2000
          (some (record { os = encode_file_header header [] ++ (1 ∷ 2 ∷ []); durable = [] }))
          8
        ≡ err (replay_sanity_failed "WAL file tree_id mismatch on open" 0))
open_or_create-open_or_create_example =
    open_or_create-open_or_create all_done all_done 1000 2000 7 8 (1 ∷ 2 ∷ []) [] refl refl
      (omega arith) (omega arith) (λ e. absurd (omega arith))
