-- ===== src/Layout/Node.antt =====
-- layout/node.rs and the sizes of layout/header.rs.
use artisan.Prelude.{ℕ, ◌+◌, ◌*◌, ◌≡◌, refl, Option, none, some, zero, suc}

pub data NodeType : Type 0 where
  invalid leaf prefix blob node4 node16 node48 node256 empty_root : NodeType

unfoldable pub from_raw : ℕ → Option NodeType
from_raw zero = some invalid
from_raw (suc zero) = some leaf
from_raw (suc (suc zero)) = some prefix
from_raw (suc (suc (suc zero))) = some blob
from_raw (suc (suc (suc (suc zero)))) = some node4
from_raw (suc (suc (suc (suc (suc zero))))) = some node16
from_raw (suc (suc (suc (suc (suc (suc zero)))))) = some node48
from_raw (suc (suc (suc (suc (suc (suc (suc zero))))))) = some node256
from_raw (suc (suc (suc (suc (suc (suc (suc (suc zero)))))))) = some empty_root
from_raw v = none

abbrev pub as_u8 : NodeType → ℕ
as_u8 invalid = 0
as_u8 leaf = 1
as_u8 prefix = 2
as_u8 blob = 3
as_u8 node4 = 4
as_u8 node16 = 5
as_u8 node48 = 6
as_u8 node256 = 7
as_u8 empty_root = 8

-- `size_of_node` of a type other than `Invalid`, at which the code panics; the table is SIZE_BY_TYPE.
abbrev pub size_of_node : NodeType → ℕ
size_of_node invalid = 0
size_of_node leaf = 16
size_of_node prefix = 128
size_of_node blob = 128
size_of_node node4 = 24
size_of_node node16 = 88
size_of_node node48 = 456
size_of_node node256 = 1032
size_of_node empty_root = 8

abbrev pub page_size : ℕ
page_size = 524288

abbrev pub header_size : ℕ
header_size = 4096

abbrev pub max_slots : ℕ
max_slots = 10240

abbrev pub slot_table_size : ℕ
slot_table_size = max_slots * 4

abbrev pub data_area_start : ℕ
data_area_start = header_size + slot_table_size

pub from_raw-as_u8 : (t : NodeType) → from_raw (as_u8 t) ≡ some t
unfolding from_raw
from_raw-as_u8 invalid = refl
from_raw-as_u8 leaf = refl
from_raw-as_u8 prefix = refl
from_raw-as_u8 blob = refl
from_raw-as_u8 node4 = refl
from_raw-as_u8 node16 = refl
from_raw-as_u8 node48 = refl
from_raw-as_u8 node256 = refl
from_raw-as_u8 empty_root = refl
