-- ===== src/Fdt/Dump.antt =====
-- `dump_fdt` of kernel/src/fdt.c, as what it writes to the console. `text a` is the string at the
-- address `a`. The outer `none` is a loop that runs out of its bound, the inner one behaviour that C
-- leaves undefined, such as a shift by 64 bits for a property of more than 8 bytes.
use ilo_pali.Prelude.{
  ℕ, zero, suc, ◌+◌, ◌-◌, ◌*◌, Bool, true, false, not, ◌&&◌, ◌||◌, Option, none, some, List, [],
  ◌∷◌, ltb, ◌==◌, if◌then◌else◌, add64,
}
use ilo_pali.Bytes.{Region}
use ilo_pali.Console.{Output, codes, ◌then_put◌, console_puts, console_printf, console_vprintf}
use ilo_pali.Fdt.{Fdt, cell, be_to_le, aligned, switch, fdt_end}

-- An output and how it goes on, with the bound on the rounds.
abbrev pub put_first : {A : Type 0} → Output → Option (Output × A) → Option (Output × A)
put_first o none = none
put_first o (some (o', a)) = some (o then_put o', a)

-- `while (*c) console_printf("%c", *c++)`: where `c` stands then
pub put_chars : ℕ → Region → ℕ → Option (Output × ℕ)
put_chars zero m c = none
put_chars (suc limit) m c =
    let rest = put_chars limit m (c + 1) in
    if m c == 0 then some (some [], c) else put_first (console_printf "%c" (m c ∷ [])) rest

-- the `n` bytes from `p` on, as characters
pub put_bytes : Region → ℕ → ℕ → Output
put_bytes m p zero = some []
put_bytes m p (suc n) = console_printf "%c" (m p ∷ []) then_put put_bytes m (p + 1) n

pub put_indent : ℕ → Output
put_indent zero = some []
put_indent (suc n) = console_puts (codes "    ") then_put put_indent n

-- `indent`, which ends the loop at 0 or below, and `ptr`
pub record Dump : Type 0 where
  pub indent : ℕ
  pub ptr : ℕ

-- the token behind a name
abbrev pub behind_put : ℕ → Option (Output × ℕ) → Option (Output × Dump)
behind_put indent none = none
behind_put indent (some (o, c)) = some (o, record { indent = indent; ptr = aligned (c + 4) })

-- The name of a node and a colon, but not at the root.
abbrev pub put_name : ℕ → Region → Bool → ℕ → ℕ → Option (Output × ℕ)
put_name limit m from_node indent c =
    if from_node || not (indent == 1)
    then (elim (put_chars limit m c) [
      | none ↦ none
      | some named ↦ some (named.0 then_put console_puts (codes ":\n"), named.1)
    ])
    else some (some [], c)

unfoldable pub dump_begin_node : ℕ → Region → Bool → Dump → Option (Output × Dump)
unfolding put_chars put_indent
dump_begin_node limit m from_node s =
    put_first (put_indent s.indent)
      (behind_put (s.indent + 1) (put_name limit m from_node (s.indent + 1) (s.ptr + 4)))

-- the value of a property of `len` bytes at `p`: a number if its first byte is zero
abbrev pub put_value : Region → ℕ → ℕ → Output
put_value m p len =
    if m p == 0
    then (if ltb 8 len
        then none
        else console_printf "0x%lx (0x%x bytes)\n" (be_to_le m (len * 8) p ∷ len ∷ []))
    else put_bytes m p len then_put console_printf " (0x%x bytes)\n" (len ∷ [])

unfoldable pub dump_prop : (ℕ → List ℕ) → Region → Fdt → Dump → Option (Output × Dump)
unfolding cell be_to_le put_bytes put_indent console_vprintf
dump_prop text m fdt s =
    let len = cell m (s.ptr + 4) in
    let p = s.ptr + 12 in
    some (
      put_indent s.indent
          then_put console_vprintf text (codes "property %s = ")
              ((fdt.strings_block + cell m (s.ptr + 8)) ∷ [])
          then_put put_value m p len,
      record s { ptr = aligned (p + len + 3) },
    )

-- the switch on a token
unfoldable pub dump_turn : (ℕ → List ℕ) → ℕ → Region → Fdt → Bool → Dump → Option (Output × Dump)
unfolding dump_begin_node dump_prop
dump_turn text limit m fdt from_node s =
    switch (cell m s.ptr) (dump_begin_node limit m from_node s)
      (some (some [], record { indent = s.indent - 1; ptr = s.ptr + 4 })) (dump_prop text m fdt s)
      (some (some [], record s { ptr = s.ptr + 4 })) (some (some [], s))

-- do ... while ((current = be_to_le(32, ptr)) != FDT_END && indent > 0), with a bound on the turns
unfoldable pub dump_loop : ℕ → (ℕ → List ℕ) → ℕ → Region → Fdt → Bool → Dump → Option Output
unfolding dump_turn
dump_loop zero text limit m fdt from_node s = none
dump_loop (suc turns) text limit m fdt from_node s = elim (dump_turn text limit m fdt from_node s) [
  | none ↦ none
  | some turn ↦
      (let rest = dump_loop turns text limit m fdt from_node turn.1 in
        if (cell m turn.1.ptr == fdt_end) || (turn.1.indent == 0)
        then some turn.0
        else (elim rest [ none ↦ none | some o ↦ some (turn.0 then_put o) ]))
]

-- the entries of the memory reservation block from `entry` on
unfoldable pub dump_reserved : ℕ → Region → ℕ → Option Output
unfolding be_to_le
dump_reserved zero m entry = none
dump_reserved (suc rounds) m entry =
    let addr = be_to_le m 64 entry in
    let size = be_to_le m 64 (entry + 8) in
    let rest = dump_reserved rounds m (entry + 16) in
    if (addr == 0) && (size == 0) then some (some []) else (elim rest [
      | none ↦ none
      | some o ↦ some (
          console_printf "    reserved %lx-%lx (%lx bytes)\n" (addr ∷ add64 addr size ∷ size ∷ [])
          then_put o)
    ])

-- the numbers of the header
unfoldable pub dump_header : Region → ℕ → Output
unfolding cell
dump_header m h =
    console_printf
      "Header at %p:\n    magic: 0x%lx\n    total size: 0x%lx\n    structure offset: 0x%lx\n    strings offset: 0x%lx\n    memory reserved map offset: 0x%lx\n    version: 0x%lx\n    last compatible version: 0x%lx\n    boot cpu id: 0x%lx\n    strings size: 0x%lx\n    structure size: 0x%lx\n"
      (h
        ∷ cell m h
        ∷ cell m (h + 4)
        ∷ cell m (h + 8)
        ∷ cell m (h + 12)
        ∷ cell m (h + 16)
        ∷ cell m (h + 20)
        ∷ cell m (h + 24)
        ∷ cell m (h + 28)
        ∷ cell m (h + 32)
        ∷ cell m (h + 36)
        ∷ [])

abbrev pub before : Output → Option Output → Option Output
before o none = none
before o (some o') = some (o then_put o')

-- The dump from a node on, or with NULL that of the whole tree.
unfoldable pub dump_fdt : ℕ → ℕ → (ℕ → List ℕ) → Region → Fdt → Option ℕ → Option Output
unfolding dump_header dump_reserved dump_loop
dump_fdt turns limit text m fdt node =
    if fdt.header == 0
    then some (console_puts (codes "Invalid flat device tree\n"))
    else dump_from node
  where
    dump_from : Option ℕ → Option Output
    dump_from (some p) = dump_loop turns text limit m fdt true (record { indent = 0; ptr = p })
    dump_from none =
        before (dump_header m fdt.header then_put console_puts (codes "Memory reserved map:\n"))
          (elim (dump_reserved limit m fdt.memory_reservation_block) [
            | none ↦ none
            | some o ↦
                before (o then_put console_puts (codes "End of memory reserved map\nroot:\n")) (
                  dump_loop turns text limit m fdt false
                    (record { indent = 0; ptr = fdt.structure_block }))
          ])
