-- ===== src/Journal/Writer.antt =====
-- journal/writer.rs. A file is
-- what the operating system holds of it and what is on the medium; the result of each system call
-- is an argument, chosen by the environment. A failed `write_all` may have written any front.
pub mod Bytes
pub mod Crash
pub mod Reopen
use artisan.Prelude.{
  ℕ, ◌+◌, ◌≤◌, ◌<◌, Bool, true, false, Option, none, some, List, [], ◌∷◌, ◌++◌, ltb, leb, ◌==◌,
  if◌then◌else◌, length, take, max,
}
use artisan.Errors.{
  Error, blob_store_io, replay_sanity_failed, Outcome, ok, err, panic, out_of_fuel, ◌>>=◌,
}
use artisan.Journal.Record.{file_header_size}
use artisan.Journal.Decode.{FileHeader, encode_file_header, decode_file_header}

pub data Syscall : Type 0 where
  done : Syscall
  failed : (written os_error : ℕ) → Syscall

-- The results of the calls that one operation may make. Nothing is documented of the medium after a
-- sync that fails: the environment chooses what it holds.
pub record Io : Type 0 where
  pub write : Syscall
  pub sync : Syscall
  pub set_len : Syscall
  pub medium : List ℕ

pub record File : Type 0 where
  pub os : List ℕ
  pub durable : List ℕ

pub record WalWriter : Type 0 where
  pub file : File
  pub pending : List ℕ
  pub bytes_written : ℕ
  pub header : FileHeader

abbrev pub auto_flush_threshold : ℕ
auto_flush_threshold = 65536

abbrev pub Step : Type 0
Step = Outcome (Unit {0}) × WalWriter

-- `self.f()?; …`
abbrev pub and_then : Step → (WalWriter → Step) → Step
and_then (ok u, w) k = k w
and_then (err e, w) k = (err e, w)
and_then (panic, w) k = (panic, w)
and_then (out_of_fuel, w) k = (out_of_fuel, w)

-- A new log: the header is written and synced before the writer is there.
unfoldable pub create : Io → ℕ → ℕ → Outcome WalWriter
create io now tree_id =
    let header : FileHeader = record { tree_id = tree_id; created_at = now } in
    let buf = encode_file_header header [] in
    elim io.write [
      | failed n e ↦ err (blob_store_io e)
      | done ↦ elim io.sync [
        | failed n e ↦ err (blob_store_io e)
        | done ↦ ok (record {
          file = record { os = buf; durable = buf };
          pending = [];
          bytes_written = file_header_size;
          header = header;
        })
      ]
    ]

-- `UnexpectedEof` of `read_exact`, as an error number.
abbrev pub unexpected_eof : ℕ
unexpected_eof = 0

unfoldable pub open_existing : File → Outcome WalWriter
open_existing file =
    if ltb (length file.os) file_header_size then err (blob_store_io unexpected_eof) else (do
      header ← decode_file_header (take file_header_size file.os)
      ok (record { file = file; pending = []; bytes_written = length file.os; header = header }))

unfoldable pub open_or_create : Io → ℕ → Option File → ℕ → Outcome WalWriter
unfolding open_existing create
open_or_create io now none tree_id = create io now tree_id
open_or_create io now (some file) tree_id = do
  w ← open_existing file
  if w.header.tree_id == tree_id
      then ok w
      else err (replay_sanity_failed "WAL file tree_id mismatch on open" 0)

unfoldable pub has_records : WalWriter → Bool
has_records w = ltb file_header_size (w.bytes_written + length w.pending)

abbrev pub is_empty : List ℕ → Bool
is_empty [] = true
is_empty (b ∷ bs) = false

-- `write_all` of the pending bytes.
abbrev pub write_pending : Syscall → WalWriter → Step
write_pending done w = (
  ok tt,
  record w {
    file = record { os = w.file.os ++ w.pending; durable = w.file.durable };
    pending = [];
    bytes_written = w.bytes_written + length w.pending;
  },
)
write_pending (failed n e) w = (
  err (blob_store_io e),
  record w { file = record { os = w.file.os ++ take n w.pending; durable = w.file.durable } },
)

unfoldable pub drain_to_os : Io → WalWriter → Step
drain_to_os io w = if is_empty w.pending then (ok tt, w) else write_pending io.write w

abbrev pub sync_data : Syscall → List ℕ → WalWriter → Step
sync_data done medium w =
    (ok tt, record w { file = record { os = w.file.os; durable = w.file.os } })
sync_data (failed n e) medium w =
    (err (blob_store_io e), record w { file = record { os = w.file.os; durable = medium } })

unfoldable pub flush : Io → WalWriter → Step
unfolding drain_to_os
flush io w = and_then (drain_to_os io w) (sync_data io.sync io.medium)

unfoldable pub maybe_drain : Io → WalWriter → Step
unfolding drain_to_os
maybe_drain io w =
    if leb auto_flush_threshold (length w.pending) then drain_to_os io w else (ok tt, w)

unfoldable pub append_encoded : Io → List ℕ → WalWriter → Step
unfolding maybe_drain
append_encoded io bytes w = maybe_drain io (record w { pending = w.pending ++ bytes })

-- `set_len(FILE_HEADER_SIZE)` and `sync_data`.
abbrev pub set_len_header : Syscall → WalWriter → Step
set_len_header done w = (
  ok tt,
  record w { file = record { os = take file_header_size w.file.os; durable = w.file.durable } },
)
set_len_header (failed n e) w = (err (blob_store_io e), w)

abbrev pub count_header : WalWriter → Step
count_header w = (ok tt, record w { bytes_written = file_header_size })

unfoldable pub truncate : Io → WalWriter → Step
truncate io w =
    and_then (set_len_header io.set_len (record w { pending = [] }))
      (λ w'. and_then (sync_data io.sync io.medium w') count_header)
