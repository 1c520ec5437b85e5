-- ===== src/Bittree/Block.antt =====
-- `struct bt_block` and `struct bt_node` of bittree_model/e_acsl_bittree_api.h, without the fields
-- of the debug and temporal builds.
use frama_c_snapshot.Prelude.{ℕ, Bool, Option, List}

pub record Block : Type 0 where
  pub ptr : ℕ
  pub size : ℕ
  -- one bit for each byte of the block, eight to a cell
  pub init_ptr : Option (List ℕ)
  pub init_bytes : ℕ
  pub is_readonly : Bool
  pub is_freeable : Bool

-- A node is owned by its parent, so a tree of nodes stands for the pointers `left` and `right`, and
-- the place in the tree for `parent`. The constructor is `is_leaf`; a leaf owns its block.
pub data Node : Type 0 where
  leaf : (addr mask : ℕ) → Block → Node
  inner : (addr mask : ℕ) (left right : Node) → Node

-- `bt_root`, where `none` is NULL
abbrev pub Root : Type 0
Root = Option Node

-- the field `addr` of a node
abbrev pub addr_of : Node → ℕ
addr_of (leaf a m b) = a
addr_of (inner a m l r) = a

-- the field `mask` of a node
abbrev pub mask_field : Node → ℕ
mask_field (leaf a m b) = m
mask_field (inner a m l r) = m

-- A node's place: the way to it from the root.
pub data Side : Type 0 where
  left right : Side

abbrev pub Way : Type 0
Way = List Side
