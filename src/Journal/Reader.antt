-- ===== src/Journal/Reader.antt =====
-- journal/reader.rs: the forward scan of a log. The callback is a step of the caller's own state.
pub mod Log
pub mod Recovery
pub mod Total
use text.Mathlib.Text.{◌==◌ as str_eq}
use artisan.Prelude.{
  ℕ, zero, suc, ◌+◌, ◌%◌, ◌^◌, max, Bool, ◌||◌, String, Option, none, some, List, [], ◌∷◌, ltb,
  if◌then◌else◌, length, take, drop,
}
use artisan.Errors.{
  Error, replay_sanity_failed, Outcome, ok, err, panic, out_of_fuel, ◌>>=◌, map_err, match_result,
}
use artisan.Journal.Record.{Platform, Primitive, WalOp, primitive, batch, file_header_size}
use artisan.Journal.Decode.{DecodedRecord, decode_record, FileHeader, decode_file_header}

pub record ReplayStats : Type 0 where
  pub records_seen : ℕ
  pub highest_seq : Option ℕ
  pub torn_tail_at : Option ℕ

unfoldable pub is_torn_tail : String → Bool
is_torn_tail context =
    str_eq context "record header truncated" || str_eq context "record body truncated"

abbrev pub patch_offset : Error → ℕ → Error
patch_offset (replay_sanity_failed context o) offset = replay_sanity_failed context offset
patch_offset e offset = e

abbrev pub highest : Option ℕ → ℕ → Option ℕ
highest none seq = some seq
highest (some s) seq = some (max s seq)

abbrev pub Callback : Type 0 → Type 0
Callback S = S → Primitive → ℕ → ℕ → Outcome S

module _ {S : Type 0} where
  -- A truncated record ends the scan; any other error is handed on, with its offset.
  unfoldable pub stopped : ℕ → ℕ → Option ℕ → S → Error → Outcome (S × ReplayStats)
  unfolding is_torn_tail
  stopped offset seen high s (replay_sanity_failed context o) =
      if is_torn_tail context
      then ok (s, record { records_seen = seen; highest_seq = high; torn_tail_at = some offset })
      else err (patch_offset (replay_sanity_failed context o) offset)
  stopped offset seen high s e = err (patch_offset e offset)

module _ {S : Type 0} (callback : Callback S) where
  -- The inner operations of a batch, with the sequences `base + i` on a u64.
  unfoldable pub deliver_batch : ℕ → ℕ → ℕ → List Primitive → S → Option ℕ → Outcome (S × Option ℕ)
  deliver_batch base i offset [] s high = ok (s, high)
  deliver_batch base i offset (p ∷ ps) s high =
      let inner_seq = (base + i) % 2 ^ 64 in
      map_err (λ e. patch_offset e offset) (callback s p inner_seq offset) >>= λ s'.
      deliver_batch base (i + 1) offset ps s' (highest high inner_seq)

  unfoldable pub deliver : WalOp → ℕ → ℕ → S → Option ℕ → Outcome (S × Option ℕ)
  unfolding deliver_batch
  deliver (batch ops) seq offset s high = deliver_batch seq 0 offset ops s high
  deliver (primitive p) seq offset s high =
      map_err (λ e. patch_offset e offset) (callback s p seq offset) >>= λ s'.
      ok (s', highest high seq)

  module _ (c : Platform) where
    -- `while offset < bytes.len()`; each record takes a byte at least.
    unfoldable pub scan : ℕ → List ℕ → ℕ → ℕ → Option ℕ → S → Outcome (S × ReplayStats)
    scan zero bytes offset seen high s =
        if ltb offset (length bytes)
        then out_of_fuel
        else ok (s, record { records_seen = seen; highest_seq = high; torn_tail_at = none })
    scan (suc fuel) bytes offset seen high s =
        let body : Outcome (S × ReplayStats) =
          match_result (decode_record c (drop offset bytes))
            (λ r. deliver r.op r.seq offset s high >>= λ d.
              scan fuel bytes (offset + r.bytes_consumed) (seen + 1) d.1 d.0)
            (stopped offset seen high s) in
        if ltb offset (length bytes)
        then body
        else ok (s, record { records_seen = seen; highest_seq = high; torn_tail_at = none })

    unfoldable pub replay_bytes : List ℕ → S → Outcome (S × FileHeader × ReplayStats)
    unfolding scan deliver
    replay_bytes bytes s =
        if ltb (length bytes) file_header_size
        then err (replay_sanity_failed "WAL too short — missing file header" 0)
        else (do
          header ← decode_file_header (take file_header_size bytes)
          (s', stats) ← scan (length bytes) bytes file_header_size 0 none s
          ok (s', header, stats))
