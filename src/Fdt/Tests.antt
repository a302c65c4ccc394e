-- ===== src/Fdt/Tests.antt =====
-- A small tree: a root with the node `ab@10F`, which has the property `reg`.
use ilo_pali.Prelude.{
  ◌++◌, First, ℕ, zero, suc, ◌<◌, ◌≡◌, refl, Option, none, some, [], ◌∷◌, ◌==◌, if◌then◌else◌,
  arith, inl,
}
use ilo_pali.Bytes.{Region, byte_at}
use ilo_pali.Fdt.{Fdt, cell, fdt_find, start_at}
use ilo_pali.Fdt.Words.{BytesOf}
use ilo_pali.Fdt.Names.{read_string}
use ilo_pali.Fdt.Find.{Block, block_end, begin_node, end_node, property, HasName, fdt_find_lem}
use ilo_pali.Fdt.Property.{fdt_get_property}
use ilo_pali.Fdt.Property.Gets.{property_of, HasKey, fdt_get_property_lem}
use ilo_pali.Fdt.Property.Gets as Property
use ilo_pali.Fdt.NodeAddress.{
  letter, at_sign, decimal, upper_case, digit, no_digits, fdt_get_node_addr, fdt_get_node_addr_lem,
}
use ilo_pali.Fdt.Dump.{dump_fdt}
use ilo_pali.Console.{codes, console_puts}
use ilo_pali.Fdt.Path.{fdt_path}
use ilo_pali.Fdt.Path.Walks.{Ends, fdt_path_lem}

-- the structure block, and then the strings "reg", "ab" and "/ab@10F"
abbrev tree : Region
tree = byte_at (
    0 ∷ 0 ∷ 0 ∷ 1 ∷ 0 ∷ 0 ∷ 0 ∷ 0 ∷ 0 ∷ 0 ∷ 0 ∷ 1 ∷ b'a' ∷ b'b' ∷ b'@' ∷ b'1' ∷ b'0' ∷ b'F' ∷ 0 ∷ 0
    ∷ 0 ∷ 0 ∷ 0 ∷ 3 ∷ 0 ∷ 0 ∷ 0 ∷ 4 ∷ 0 ∷ 0 ∷ 0 ∷ 0 ∷ 1 ∷ 2 ∷ 3 ∷ 4 ∷ 0 ∷ 0 ∷ 0 ∷ 2 ∷ 0 ∷ 0 ∷ 0 ∷ 2
    ∷ 0 ∷ 0 ∷ 0 ∷ 9 ∷ b'r' ∷ b'e' ∷ b'g' ∷ 0 ∷ b'a' ∷ b'b' ∷ 0 ∷ 0 ∷ b'/' ∷ b'a' ∷ b'b' ∷ b'@'
    ∷ b'1' ∷ b'0' ∷ b'F' ∷ 0 ∷ [])

abbrev blocks : Fdt
blocks = record {
  header = 0;
  memory_reservation_block = 0;
  structure_block = 0;
  strings_block = 48;
}

tree_rest : Block tree 8 20 3 []
unfolding cell
tree_rest =
    property 20 2 [] refl (end_node 36 1 [] refl (end_node 40 0 [] refl (block_end 44 refl)))

tree-Block : Block tree 8 0 5 (0 ∷ 8 ∷ [])
unfolding cell
tree-Block =
    begin_node 0 4 0 (8 ∷ []) refl (read_string tree 4 0 refl) (omega arith)
      (begin_node 8 3 6 [] refl (read_string tree 12 6 refl) (omega arith) tree_rest)

found_node : fdt_find 6 8 tree blocks 52 none ≡ some (some 8)
unfolding fdt_find
found_node = refl

fdt_find_lem_example :
    (r : Option ℕ) × (fdt_find 6 8 tree blocks 52 none ≡ some r)
    × First (HasName tree 52) (0 ∷ 8 ∷ []) r
fdt_find_lem_example = fdt_find_lem 6 8 tree blocks 52 tree-Block (omega arith)

-- A name that ends, its zero included, at a multiple of four: the token behind it, here the
-- beginning of the node `a`, is passed over.
full_word : Region
full_word = byte_at (0 ∷ 0 ∷ 0 ∷ 1 ∷ b'c' ∷ b'p' ∷ b'u' ∷ 0 ∷ 0 ∷ 0 ∷ 0 ∷ 1 ∷ b'a' ∷ 0 ∷ 0 ∷ 0 ∷ [])

word_passed_over : start_at 8 full_word blocks (some 0) ≡ some 12
unfolding start_at full_word
word_passed_over = refl

-- the first word of a device tree
abbrev magic : Region
magic i =
    if i == 0
    then 0xd0
    else if i == 1
    then 0x0d
    else if i == 2
    then 0xfe
    else if i == 3
    then 0xed
    else 0

magic_small : (j : ℕ) → magic j < 256
magic_small j = ground arith

magic-BytesOf : BytesOf 4 0xd00dfeed magic 0
magic-BytesOf zero lt = refl
magic-BytesOf (suc zero) lt = refl
magic-BytesOf (suc (suc zero)) lt = refl
magic-BytesOf (suc (suc (suc zero))) lt = refl
magic-BytesOf (suc (suc (suc (suc i)))) lt = absurd (omega arith)

tree-Node : Property.Node tree 8 blocks 0 8 2 (20 ∷ [])
unfolding cell
tree-Node = Property.begin_node 0 8 1 6 (20 ∷ []) refl (read_string tree 12 6 refl) (omega arith) (
    Property.property 20 0 3 [] refl (read_string tree 48 3 refl) (omega arith)
      (Property.node_end 36 refl))

got_property :
    fdt_get_property 3 8 tree blocks (some 8) 48 ≡ some (property_of tree blocks (some 20))
unfolding fdt_get_property
got_property = refl

fdt_get_property_lem_example :
    (r : Option ℕ) × (fdt_get_property 3 8 tree blocks (some 8) 48
      ≡ some (property_of tree blocks r))
    × First (HasKey tree 8 blocks 48) (20 ∷ []) r
unfolding cell
fdt_get_property_lem_example =
    fdt_get_property_lem 3 8 tree blocks (some 8) 48 refl tree-Node (omega arith) (omega arith)

fdt_get_node_addr_lem_example : fdt_get_node_addr 8 tree 8 ≡ some 0x10F
unfolding cell
fdt_get_node_addr_lem_example =
    fdt_get_node_addr_lem tree 8 8 refl
      (letter 12 1 (omega arith) (omega arith)
        (letter 13 0 (omega arith) (omega arith) (at_sign 14 refl)))
      (digit 15 2 1 0 0x10F (decimal b'1' 1 (omega arith) refl) (
        digit 16 1 0 1 0x10F (decimal b'0' 0 (omega arith) refl) (
          digit 17 0 15 16 0x10F (upper_case b'F' 5 (omega arith) refl) (no_digits 18 0x10F refl))))
      (omega arith) (omega arith) (omega arith)

fdt_path_lem_example :
    (r : Option ℕ) × (fdt_path 6 8 tree blocks 56 none ≡ some r) × Ends tree (0 ∷ 8 ∷ []) 56 r
fdt_path_lem_example = fdt_path_lem 6 8 tree blocks 56 none (inl refl) tree-Block (omega arith)

-- With the path "/y" a node `y` below `x` is found: the walk does not look at the depth of a node.
nested : Region
nested = byte_at (
    0 ∷ 0 ∷ 0 ∷ 1 ∷ 0 ∷ 0 ∷ 0 ∷ 0 ∷ 0 ∷ 0 ∷ 0 ∷ 1 ∷ b'x' ∷ 0 ∷ 0 ∷ 0 ∷ 0 ∷ 0 ∷ 0 ∷ 1 ∷ b'y' ∷ 0 ∷ 0
    ∷ 0 ∷ 0 ∷ 0 ∷ 0 ∷ 2 ∷ 0 ∷ 0 ∷ 0 ∷ 2 ∷ 0 ∷ 0 ∷ 0 ∷ 2 ∷ 0 ∷ 0 ∷ 0 ∷ 9 ∷ b'/' ∷ b'y' ∷ 0 ∷ [])

too_deep : fdt_path 8 8 nested blocks 40 none ≡ some (some 16)
unfolding fdt_path nested
too_deep = refl

-- A word that is no token, such as the 0 at the address 4, holds the search for ever.
no_token :
    (turns : ℕ) → fdt_find turns 8 tree (record blocks { structure_block = 4 }) 52 none ≡ none
unfolding fdt_find
no_token zero = refl
no_token (suc turns) = no_token turns

-- the dump of the node `ab@10F`, whose property has four bytes that do not begin with a zero
dumped :
    dump_fdt 4 8 (λ a. codes "reg") tree (record blocks { header = 1 }) (some 8)
    ≡ some (
        console_puts
          (codes "ab@10F:\n    property reg = " ++ 1 ∷ 2 ∷ 3 ∷ 4 ∷ codes " (0x4 bytes)\n"))
unfolding dump_fdt
dumped = refl
