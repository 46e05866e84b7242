-- ===== src/Journal/Writer/Crash.antt =====
-- What a crash leaves of a log, and what a replay finds in it.
use mathlib.Core.List.{head-eq_of_cons-eq, tail-eq_of_cons-eq, nil≢cons}
use mathlib.Core.Path.{subst}
use artisan.Prelude.{
  ℕ, ◌≡◌, ◌⊎◌, inl, inr, refl, sym, ap, ◌∙◌, none, List, [], ◌∷◌, ◌++◌, append_assoc, arith, length,
  All,
}
use artisan.Prelude.Bytes.{le_bytes}
use artisan.Errors.{ok, ◌>>=◌}
use artisan.Journal.Record.{Platform}
use artisan.Journal.Wire.{U64}
use artisan.Journal.Decode.{FileHeader, encode_file_header}
use artisan.Journal.Reader.{Callback, replay_bytes}
use artisan.Journal.Reader.Log.{
  Logged, IsLogged, logged_wire, log_wire, IsFront, deliveries, run, highest_of,
}
use artisan.Journal.Reader.Recovery.{torn_at, log_end, replay_bytes-log}
use artisan.Journal.Writer.{Io, WalWriter, flush}
use artisan.Journal.Writer.Bytes.{stream, flush-durable}

-- Two ways to cut one list: the first cut falls inside `xs`, or behind it.
append_split :
    (xs ys zs ws : List ℕ)
    → xs ++ ys ≡ zs ++ ws
    → ((x : ℕ) × (t : List ℕ) × (xs ≡ zs ++ (x ∷ t)))
      ⊎ ((u : List ℕ) × (zs ≡ xs ++ u) × (ys ≡ u ++ ws))
append_split [] ys zs ws e = inr (zs, refl, e)
append_split (x ∷ xs) ys [] ws e = inl (x, xs, refl)
append_split (x ∷ xs) ys (z ∷ zs) ws e = elim (append_split xs ys zs ws (tail-eq_of_cons-eq e)) [
  | inl (y, t, f) ↦ inl (y, t, cc (head-eq_of_cons-eq e, f))
  | inr (u, f, g) ↦ inr (u, cc (head-eq_of_cons-eq e, f), g)
]

empty-IsFront : (c : Platform) → IsFront c []
unfolding le_bytes
empty-IsFront c = (0, 0, [], _, _, omega arith, refl)

-- What is torn is a front of the first record that is lost, and not the whole of it.
abbrev pub IsTorn : Platform → List Logged → List ℕ → Type 0
IsTorn c [] torn = torn ≡ []
IsTorn c (r ∷ lost) torn = (x : ℕ) × (back : List ℕ) × (logged_wire c r ≡ torn ++ (x ∷ back))

-- A log that is cut off anywhere is some of its records and the front of the next one.
record Cut (c : Platform) (rs : List Logged) (bytes : List ℕ) : Type 0 where
  whole : List Logged
  lost : List Logged
  torn : List ℕ
  records : rs ≡ whole ++ lost
  cut : bytes ≡ log_wire c whole ++ torn
  front : IsFront c torn
  next : IsTorn c lost torn

Cut-cons :
    (c : Platform) (r : Logged) (rs : List Logged) (bytes u : List ℕ)
    → bytes ≡ logged_wire c r ++ u
    → Cut c rs u
    → Cut c (r ∷ rs) bytes
Cut-cons c r rs bytes u f k = record {
  whole = r ∷ k.whole;
  lost = k.lost;
  torn = k.torn;
  records = ap (λ l. r ∷ l) k.records;
  cut =
      f
      ∙ ap (λ t. logged_wire c r ++ t) k.cut
      ∙ sym (append_assoc (logged_wire c r) (log_wire c k.whole) k.torn);
  front = k.front;
  next = k.next;
}

log-Cut :
    (c : Platform) (rs : List Logged) (bytes back : List ℕ)
    → All (IsLogged c) rs
    → log_wire c rs ≡ bytes ++ back
    → Cut c rs bytes
log-Cut c [] [] back h e = record {
  whole = [];
  lost = [];
  torn = [];
  records = refl;
  cut = refl;
  front = empty-IsFront c;
  next = refl;
}
log-Cut c [] (b ∷ bytes) back h e = absurd (nil≢cons e)
log-Cut c (r ∷ rs) bytes back h e =
    elim (append_split (logged_wire c r) (log_wire c rs) bytes back e) [
      | inl (x, t, f) ↦ record {
        whole = [];
        lost = r ∷ rs;
        torn = bytes;
        records = refl;
        cut = refl;
        front = (r.seq, r.ty, r.body, x, t, h.0.1, f);
        next = (x, t, f);
      }
      | inr (u, f, g) ↦ Cut-cons c r rs bytes u f (log-Cut c rs u back h.1 g)
    ]

All-append :
    (c : Platform) (xs ys : List Logged)
    → All (IsLogged c) xs
    → All (IsLogged c) ys
    → All (IsLogged c) (xs ++ ys)
All-append c [] ys hx hy = hy
All-append c (x ∷ xs) ys hx hy = (hx.0, All-append c xs ys hx.1 hy)

All-append_left :
    (c : Platform) (xs ys : List Logged) → All (IsLogged c) (xs ++ ys) → All (IsLogged c) xs
All-append_left c [] ys h = tt
All-append_left c (x ∷ xs) ys h = (h.0, All-append_left c xs ys h.1)

-- What a replay gets after a crash. Of the records behind the flushed ones, `kept` are whole in the
-- bytes `extra` that follow the flushed ones on the medium, and the first one after `kept` is not.
pub record Replayed (c : Platform) {S : Type 0} (callback : Callback S) (header : FileHeader)
    (flushed more : List Logged) (disk extra : List ℕ) (s : S) : Type 0 where
  pub kept : List Logged
  pub lost : List Logged
  pub torn : List ℕ
  pub split : more ≡ kept ++ lost
  pub cut : extra ≡ log_wire c kept ++ torn
  pub next : IsTorn c lost torn
  pub replayed : replay_bytes callback c disk s ≡ (
      run callback (deliveries (flushed ++ kept) 32) s >>= λ s'. ok (
        s',
        header,
        record {
          records_seen = length (flushed ++ kept);
          highest_seq = highest_of none (deliveries (flushed ++ kept) 32);
          torn_tail_at = torn_at torn (log_end (flushed ++ kept) 32);
        },
      ))

log_wire-append :
    (c : Platform) (xs ys : List Logged) → log_wire c (xs ++ ys) ≡ log_wire c xs ++ log_wire c ys
log_wire-append c [] ys = refl
log_wire-append c (x ∷ xs) ys =
    ap (λ t. logged_wire c x ++ t) (log_wire-append c xs ys)
    ∙ sym (append_assoc (logged_wire c x) (log_wire c xs) (log_wire c ys))

module _ (c : Platform) {S : Type 0} (callback : Callback S) (header : FileHeader)
    (flushed more : List Logged) (io : Io) (w w' : WalWriter) (extra back : List ℕ) (s : S) where
  -- If a flush succeeds on a log of well-formed records, and records are appended behind it, and the
  -- system stops with any front of them on the medium behind what was flushed, then a replay of the
  -- medium delivers every flushed record, and behind them, in order, exactly the records whose bytes are all
  -- there: what follows them is less than the next record.
  pub replay-flush :
      U64 header.tree_id
      → U64 header.created_at
      → All (IsLogged c) flushed
      → All (IsLogged c) more
      → stream w ≡ encode_file_header header [] ++ log_wire c flushed
      → flush io w ≡ (ok tt, w')
      → log_wire c more ≡ extra ++ back
      → Replayed c callback header flushed more (w'.file.durable ++ extra) extra s
  replay-flush ht hc hf hm logged f e =
      let k = log-Cut c more extra back hm e in
      let whole : All (IsLogged c) k.whole =
        All-append_left c k.whole k.lost (subst (All (IsLogged c)) k.records hm) in
      record {
        kept = k.whole;
        lost = k.lost;
        torn = k.torn;
        split = k.records;
        cut = k.cut;
        next = k.next;
        replayed =
            ap (λ b. replay_bytes callback c b s) (on_disk k)
            ∙ replay_bytes-log callback c header (flushed ++ k.whole) k.torn s ht hc
                (All-append c flushed k.whole hf whole) k.front;
      }
    where
      on_disk :
          (k : Cut c more extra)
          → w'.file.durable ++ extra
            ≡ encode_file_header header [] ++ (log_wire c (flushed ++ k.whole) ++ k.torn)
      on_disk k = cc (
        (flush-durable io w w' f).0,
        logged,
        k.cut,
        log_wire-append c flushed k.whole,
        append_assoc (encode_file_header header []) (log_wire c flushed) extra,
        append_assoc (log_wire c flushed) (log_wire c k.whole) k.torn,
      )
