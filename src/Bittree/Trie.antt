-- ===== src/Bittree/Trie.antt =====
-- The operations of bittree_model/e_acsl_bittree.h on the trie of blocks. Assignments through node
-- pointers become the new tree; `private_malloc` is taken to succeed.
pub mod Shape
pub mod Similar
pub mod Join
pub mod Insert
pub mod Remove
pub mod Below
pub mod Find
pub mod Lookup
use frama_c_snapshot.Prelude.{
  ℕ, zero, suc, ◌+◌, ◌%◌, Bool, true, false, ◌&&◌, ◌||◌, Option, none, some, List, [], ◌∷◌, ◌++◌,
  leb, ltb, ◌==◌, if◌then◌else◌, bit_and, get_or,
}
use frama_c_snapshot.Prelude.Run.{Run, ok, abort, fault, ◌>>=◌}
use frama_c_snapshot.Prelude.Bits.{pow2}
use frama_c_snapshot.Bittree.Tables.{WordBits, bits, tmasks}
use frama_c_snapshot.Bittree.Mask.{mask}
use frama_c_snapshot.Bittree.Block.{
  Block, Node, leaf, inner, Root, addr_of, mask_field, Side, left, right, Way,
}

-- `t->addr & t->mask`
abbrev pub prefix : Node → ℕ
prefix t = bit_and (addr_of t) (mask_field t)

-- `(t->addr & t->mask) == (x & t->mask)`
abbrev pub same_prefix : Node → ℕ → Bool
same_prefix t x = prefix t == bit_and x (mask_field t)

-- `(t->addr & t->mask) <= (x & t->mask)`
abbrev pub prefix_below : Node → ℕ → Bool
prefix_below t x = leb (prefix t) (bit_and x (mask_field t))

-- The tree with the node at a place replaced.
unfoldable pub replace_at : Way → (Node → Node) → Node → Node
replace_at [] f t = f t
replace_at (left ∷ p) f (inner a m l r) = inner a m (replace_at p f l) r
replace_at (right ∷ p) f (inner a m l r) = inner a m l (replace_at p f r)
replace_at (d ∷ p) f (leaf a m b) = leaf a m b

-- `sibling == bt_root`
abbrev pub is_root : Way → Bool
is_root [] = true
is_root (_ ∷ _) = false

-- `static bt_node * bt_get_leaf_from_block (bt_block * ptr)`; `none` is "Unreachable".
unfoldable pub leaf_from_block : Node → ℕ → Option Way
leaf_from_block (leaf a m b) x = some []
leaf_from_block (inner a m l r) x = elim (same_prefix r x) [
  | true ↦ elim (leaf_from_block r x) [ none ↦ none | some p ↦ some (right ∷ p) ]
  | false ↦ elim (same_prefix l x) [
    | true ↦ elim (leaf_from_block l x) [ none ↦ none | some p ↦ some (left ∷ p) ]
    | false ↦ none
  ]
]

-- the loop of `bt_lookup`
unfoldable pub lookup_from : Node → ℕ → Option Block
lookup_from (leaf a m b) x = if b.ptr == x then some b else none
lookup_from (inner a m l r) x = elim (bit_and a m == bit_and x m) [
  | false ↦ none
  | true ↦ elim (same_prefix r x) [
    | true ↦ lookup_from r x
    | false ↦ elim (same_prefix l x) [ true ↦ lookup_from l x | false ↦ none ]
  ]
]

-- `static bt_block * bt_lookup (void * ptr)`
unfoldable pub bt_lookup : Root → ℕ → Run (Option Block)
unfolding lookup_from
bt_lookup none x = fault
bt_lookup (some t) x = ok (lookup_from t x)

module _ (w : WordBits) where
  -- The node that will be the sibling of the new leaf.
  unfoldable pub bt_most_similar_node : Node → ℕ → Way
  bt_most_similar_node (leaf a m b) x = []
  bt_most_similar_node (inner a m l r) x =
      let left_prefix = mask w (prefix l) x in
      let right_prefix = mask w (prefix r) x in
      elim (ltb right_prefix left_prefix) [
        | true ↦ left ∷ bt_most_similar_node l x
        | false ↦ elim (ltb left_prefix right_prefix) [
          | true ↦ right ∷ bt_most_similar_node r x
          | false ↦ []
        ]
      ]

  -- `if(!sibling->is_leaf) sibling->mask = …`
  unfoldable pub refresh_mask : Node → Node
  refresh_mask (leaf a m b) = leaf a m b
  refresh_mask (inner a m l r) = inner a (mask w (prefix l) (prefix r)) l r

  -- `new_leaf`, whose mask is `Tmasks[WORDBITS]`
  abbrev pub new_leaf : Block → Node
  new_leaf b = leaf b.ptr (get_or (tmasks w) (bits w) 0) b

  -- The new parent of the sibling and the new leaf. At the root and below it the source computes
  -- the mask in two ways.
  unfoldable pub new_parent : Bool → Block → Node → Node
  unfolding refresh_mask
  new_parent at_root b sibling =
      let m =
        if leb b.ptr (addr_of sibling)
        then (if at_root
            then mask w (prefix sibling) b.ptr
            else mask w (prefix (new_leaf b)) (prefix sibling))
        else (if at_root
            then mask w (prefix sibling) b.ptr
            else mask w (prefix sibling) (prefix (new_leaf b))) in
      let a = bit_and (addr_of sibling) b.ptr in
      if leb b.ptr (addr_of sibling)
      then inner a m (new_leaf b) (refresh_mask sibling)
      else inner a m (refresh_mask sibling) (new_leaf b)

  -- `static void bt_insert (bt_block * ptr)`
  unfoldable pub bt_insert : Block → Root → Root
  unfolding bt_most_similar_node new_parent replace_at
  bt_insert b none = some (new_leaf b)
  bt_insert b (some t) =
      let place = bt_most_similar_node t b.ptr in
      some (replace_at place (new_parent (is_root place) b) t)

  -- The mask of a node one of whose children has become its child's sibling: the recomputed mask
  -- of `parent->parent`, and the old one further up.
  abbrev pub grandparent_mask : Way → ℕ → Node → Node → ℕ
  grandparent_mask [] m l r = mask w (prefix l) (prefix r)
  grandparent_mask (_ ∷ _) m l r = m

  -- The tree without the leaf at a place: the sibling takes the parent's place. `none`: the leaf
  -- is the root.
  unfoldable pub remove_at : Way → Node → Root
  remove_at [] t = none
  remove_at (left ∷ []) (inner a m l r) = some r
  remove_at (right ∷ []) (inner a m l r) = some l
  remove_at (left ∷ d ∷ p) (inner a m l r) = elim (remove_at (d ∷ p) l) [
    | none ↦ none
    | some l' ↦ some (inner a (grandparent_mask p m l' r) l' r)
  ]
  remove_at (right ∷ d ∷ p) (inner a m l r) = elim (remove_at (d ∷ p) r) [
    | none ↦ none
    | some r' ↦ some (inner a (grandparent_mask p m l r') l r')
  ]
  remove_at (d ∷ p) (leaf a m b) = some (leaf a m b)

  -- `static void bt_remove (bt_block * ptr)`: an empty tree is a null pointer that is followed.
  unfoldable pub bt_remove : ℕ → Root → Run Root
  unfolding leaf_from_block remove_at
  bt_remove x none = fault
  bt_remove x (some t) = elim (leaf_from_block t x) [ none ↦ abort | some p ↦ ok (remove_at p t) ]

  -- `(size_t)ptr < tmp->leaf->size + tmp->addr || (tmp->leaf->size == 0 && ptr == tmp->leaf->ptr)`
  abbrev pub leaf_contains : ℕ → Block → ℕ → Bool
  leaf_contains a b x = ltb x ((b.size + a) % pow2 (bits w)) || b.size == 0 && x == b.ptr

  -- The loop of `bt_find` with fuel, over `tmp` and `other_choice`; out of fuel is a fault.
  unfoldable pub find_loop : ℕ → Node → Root → ℕ → Run (Option Block)
  find_loop zero t other x = fault
  find_loop (suc fuel) (leaf a m b) other x =
      if ltb x a then ok none else if leaf_contains a b x then ok (some b) else ok none
  find_loop (suc fuel) (inner a m l r) other x = elim (prefix_below r x) [
    | true ↦ find_loop fuel r (some l) x
    | false ↦ elim (prefix_below l x) [
      | true ↦ find_loop fuel l other x
      | false ↦ elim other [ none ↦ ok none | some o ↦ find_loop fuel o none x ]
    ]
  ]

-- the number of nodes, which bounds the rounds of `bt_find`
abbrev pub node_count : Node → ℕ
node_count (leaf a m b) = 1
node_count (inner a m l r) = suc (node_count l + node_count r)

-- `static bt_block * bt_find (void * ptr)`
unfoldable pub bt_find : WordBits → Root → ℕ → Run (Option Block)
unfolding find_loop
bt_find w none x = ok none
bt_find w (some t) x =
    let found = find_loop w (suc (node_count t)) t none x in if x == 0 then ok none else found

-- `bt_clean_rec` frees the nodes from the left: the blocks that it cleans, in order.
unfoldable pub bt_clean_rec : Node → List Block
bt_clean_rec (leaf a m b) = b ∷ []
bt_clean_rec (inner a m l r) = bt_clean_rec l ++ bt_clean_rec r

-- `static void bt_clean ()`: the blocks cleaned, and the root behind it.
unfoldable pub bt_clean : Root → List Block × Root
unfolding bt_clean_rec
bt_clean none = ([], none)
bt_clean (some t) = (bt_clean_rec t, none)
