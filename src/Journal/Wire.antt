-- ===== src/Journal/Wire.antt =====
-- The format of a log in journal/codec.rs's module documentation, as pure functions of what is
-- written: what the encoders append and the decoders read back.
use artisan.Prelude.{ℕ, ◌<◌, ◌^◌, ◌≡◌, Bool, true, false, List, [], ◌∷◌, ◌++◌, length}
use artisan.Prelude.Bytes.{le_bytes}
use artisan.Journal.Record.{
  Platform, Primitive, insert, erase, rename_object, record_magic, ty_insert, ty_erase,
  ty_rename_object, ty_batch_insert_run,
}

abbrev pub U32 : ℕ → Type 0
U32 n = n < 2 ^ 32

abbrev pub U64 : ℕ → Type 0
U64 n = n < 2 ^ 64

abbrev pub wire_bytes : List ℕ → List ℕ
wire_bytes b = le_bytes 4 (length b) ++ b

abbrev pub bool_wire : Bool → List ℕ
bool_wire true = 1 ∷ []
bool_wire false = 0 ∷ []

abbrev pub tag_of : Primitive → ℕ
tag_of (insert t k v) = ty_insert
tag_of (erase t k) = ty_erase
tag_of (rename_object t s d f) = ty_rename_object

abbrev pub primitive_wire : Primitive → List ℕ
primitive_wire (insert t k v) = le_bytes 8 t ++ (wire_bytes k ++ wire_bytes v)
primitive_wire (erase t k) = le_bytes 8 t ++ wire_bytes k
primitive_wire (rename_object t s d f) =
    le_bytes 8 t ++ (wire_bytes s ++ (wire_bytes d ++ bool_wire f))

-- What Rust's types say of the fields, and what `expect` asks of the lengths.
abbrev pub Fits : Primitive → Type 0
Fits (insert t k v) = U64 t × U32 (length k) × U32 (length v)
Fits (erase t k) = U64 t × U32 (length k)
Fits (rename_object t s d f) = U64 t × U32 (length s) × U32 (length d)

-- An operation inside a batch has its tag in front.
abbrev pub inner_wire : Primitive → List ℕ
inner_wire p = tag_of p ∷ primitive_wire p

abbrev pub inners_wire : List Primitive → List ℕ
inners_wire [] = []
inners_wire (p ∷ ps) = inner_wire p ++ inners_wire ps

-- What a batch body is made of: single operations, and runs of inserts into one tree whose keys
-- and values have the lengths that stand in front of the run.
pub data Piece : Type 0 where
  single : Primitive → Piece
  run : (tree_id key_len value_len : ℕ) (items : List (List ℕ × List ℕ)) → Piece

abbrev pub items_wire : List (List ℕ × List ℕ) → List ℕ
items_wire [] = []
items_wire ((k, v) ∷ items) = k ++ (v ++ items_wire items)

abbrev pub piece_wire : Piece → List ℕ
piece_wire (single p) = inner_wire p
piece_wire (run t kl vl items) =
    ty_batch_insert_run
    ∷ (le_bytes 8 t
        ++ (le_bytes 4 (length items) ++ (le_bytes 4 kl ++ (le_bytes 4 vl ++ items_wire items))))

abbrev pub pieces_wire : List Piece → List ℕ
pieces_wire [] = []
pieces_wire (p ∷ ps) = piece_wire p ++ pieces_wire ps

-- The operations that a piece stands for.
abbrev pub inserts : ℕ → List (List ℕ × List ℕ) → List Primitive
inserts t [] = []
inserts t ((k, v) ∷ items) = insert t k v ∷ inserts t items

abbrev pub expand : Piece → List Primitive
expand (single p) = p ∷ []
expand (run t kl vl items) = inserts t items

abbrev pub expand_all : List Piece → List Primitive
expand_all [] = []
expand_all (p ∷ ps) = expand p ++ expand_all ps

abbrev pub ItemsFit : ℕ → ℕ → List (List ℕ × List ℕ) → Type 0
ItemsFit kl vl [] = Unit
ItemsFit kl vl ((k, v) ∷ items) = (length k ≡ kl) × (length v ≡ vl) × ItemsFit kl vl items

abbrev pub PieceFits : Piece → Type 0
PieceFits (single p) = Fits p
PieceFits (run t kl vl items) =
    U64 t × U32 kl × U32 vl × U32 (length items) × (0 < length items) × ItemsFit kl vl items

abbrev pub batch_wire : ℕ → ℕ → List ℕ → List ℕ
batch_wire tree_id count inner = le_bytes 8 tree_id ++ (le_bytes 4 count ++ inner)

-- Everything of a record that its checksum covers.
abbrev pub covered : ℕ → ℕ → List ℕ → List ℕ
covered seq ty body =
    le_bytes 4 record_magic ++ (le_bytes 4 (length body) ++ (le_bytes 8 seq ++ (ty ∷ body)))

abbrev pub record_wire : Platform → ℕ → ℕ → List ℕ → List ℕ
record_wire c seq ty body = covered seq ty body ++ le_bytes 4 (c.hash (covered seq ty body))
