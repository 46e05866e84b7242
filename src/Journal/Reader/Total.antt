-- ===== src/Journal/Reader/Total.antt =====
-- The scanner answers on any bytes, whatever the callback does that itself answers.
use artisan.Prelude.{ℕ, ◌≡◌, true, List, drop}
use artisan.Errors.{Outcome, ok, Post}
use artisan.Journal.Record.{Platform}
use artisan.Journal.Decode.{FileHeader}
use artisan.Journal.Decode.Total.{count_field}
use artisan.Journal.Reader.{ReplayStats}

-- The outcome is a value or an error.
abbrev pub Answers : {A : Type 0} → Outcome A → Type 0
Answers o = Post (λ a. Unit {0}) o

abbrev found : {S : Type 0} → S → FileHeader → ReplayStats → Outcome (S × FileHeader × ReplayStats)
found s header stats = ok (s, header, stats)

-- The allocator grants the count that a record at any offset would have.
abbrev pub GrantsCounts : Platform → List ℕ → Type 0
GrantsCounts c bytes = (offset : ℕ) → c.grants (count_field (drop offset bytes)) ≡ true
