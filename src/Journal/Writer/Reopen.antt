-- ===== src/Journal/Writer/Reopen.antt =====
-- A log that was made is opened again with its header, by its tree alone.
use artisan.Prelude.{
  ℕ, ◌+◌, ◌≡◌, ◌≢◌, refl, sym, ap, true, false, none, some, List, [], ◌++◌, arith, length,
  length-append, take-append_of_eq, ltb, ◌==◌, append-nil,
}
use artisan.Errors.{ok, err, replay_sanity_failed}
use artisan.Journal.Wire.{U64}
use artisan.Journal.Decode.{FileHeader, encode_file_header, decode_file_header}
use artisan.Journal.Reader.Recovery.{decode-encode_file_header, length-encode_file_header}
use artisan.Journal.Writer.{
  done, Io, File, WalWriter, create, open_existing, open_or_create, has_records,
}

-- The writer of a log with a header and `more` behind it.
abbrev pub opened : FileHeader → List ℕ → List ℕ → WalWriter
opened header more durable = record {
  file = record { os = encode_file_header header [] ++ more; durable = durable };
  pending = [];
  bytes_written = 32 + length more;
  header = header;
}

open_existing_ok :
    (header : FileHeader) (more durable : List ℕ)
    → U64 header.tree_id
    → U64 header.created_at
    → open_existing (record { os = encode_file_header header [] ++ more; durable = durable })
      ≡ ok (opened header more durable)
unfolding open_existing
open_existing_ok header more durable ht hc =
    let size = length-encode_file_header header in
    let total : length (encode_file_header header [] ++ more) ≡ 32 + length more =
      omega (arith, size, length-append (encode_file_header header []) more) in
    let long : ltb (length (encode_file_header header [] ++ more)) 32 ≡ false =
      ground (arith, total) in
    let read : decode_file_header (encode_file_header header []) ≡ ok header =
      rw append-nil at (decode-encode_file_header header [] ht hc) in
    rw long (
      rw (take-append_of_eq 32 (encode_file_header header []) more (sym size))
        (rw read (rw total refl)))

create_ok :
    (io : Io) (now tree_id : ℕ)
    → io.write ≡ done
    → io.sync ≡ done
    → let header : FileHeader = record { tree_id = tree_id; created_at = now } in
      create io now tree_id ≡ ok (opened header [] (encode_file_header header []))
unfolding create
create_ok io now tree_id w s =
    let header : FileHeader = record { tree_id = tree_id; created_at = now } in
    rw (create, w, s)
      (ap
        (λ os. ok (record {
          file = record { os = os; durable = encode_file_header header [] };
          pending = [];
          bytes_written = 32;
          header = header;
        }))
        (sym (append-nil (encode_file_header header []))))

-- A log that `open_or_create` has made is on the medium and has no records; when it is opened again,
-- whatever was appended, the writer has its header and its length if the tree is the one that it was
-- made for, and is refused if the tree is another.
pub open_or_create-open_or_create :
    (io io' : Io) (now now' tree_id other : ℕ) (more durable : List ℕ)
    → io.write ≡ done
    → io.sync ≡ done
    → U64 tree_id
    → U64 now
    → other ≢ tree_id
    → let header : FileHeader = record { tree_id = tree_id; created_at = now } in
      let file : File = record { os = encode_file_header header [] ++ more; durable = durable } in
      (open_or_create io now none tree_id ≡ ok (opened header [] (encode_file_header header [])))
      × (has_records (opened header [] (encode_file_header header [])) ≡ false)
      × (open_or_create io' now' (some file) tree_id ≡ ok (opened header more durable))
      × (open_or_create io' now' (some file) other
          ≡ err (replay_sanity_failed "WAL file tree_id mismatch on open" 0))
unfolding open_or_create create has_records
open_or_create-open_or_create io io' now now' tree_id other more durable w s ht hc ne =
    let header : FileHeader = record { tree_id = tree_id; created_at = now } in
    let e = open_existing_ok header more durable ht hc in
    let same : (tree_id == tree_id) ≡ true = ground arith in
    let apart : (tree_id == other) ≡ false = ground arith in
    (create_ok io now tree_id w s, refl, rw e (rw same refl), rw e (rw apart refl))
