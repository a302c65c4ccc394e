-- ===== src/Spawn/Arguments.antt =====
-- The arguments of a new task in `spawn_task_from_elf` of kernel/src/process.c: strings in pages of
-- their own, one behind the other, and behind them the pointers to them.
use ilo_pali.Prelude.{ℕ, ◌+◌, ◌*◌, ◌/◌, List, [], ◌∷◌, leb, if◌then◌else◌, add64}
use ilo_pali.Pages.{page_size}
use ilo_pali.Mmu.Address.{phys2safe}
use ilo_pali.Mmu.Entry.{mmu_bit_read, mmu_bit_write, mmu_bit_user}
use ilo_pali.Mmu.Table.{Memory, store}
use ilo_pali.Mmu.Map.{mmu_alloc}
use ilo_pali.Mmu.Bytes.{store_byte}

-- `offset`, `physical`, `virt_addr` and `last_virtual_page`, and what the memory holds
pub record Cursor : Type 0 where
  pub offset : ℕ
  pub physical : ℕ
  pub virt_addr : ℕ
  pub last : ℕ
  pub memory : Memory

abbrev pub user_flags : ℕ
user_flags = mmu_bit_read + mmu_bit_write + mmu_bit_user

-- a fresh page at `last_virtual_page`
unfoldable pub next_page : ℕ → Cursor → Cursor
unfolding mmu_alloc phys2safe
next_page root s =
    let (page, m) = mmu_alloc s.memory root s.last user_flags in
    record {
      offset = 0;
      physical = phys2safe m.enabled page;
      virt_addr = s.last;
      last = add64 s.last page_size;
      memory = m;
    }

-- if (offset >= PAGE_SIZE)
unfoldable pub with_room : ℕ → Cursor → Cursor
unfolding next_page
with_room root s = if leb page_size s.offset then next_page root s else s

-- physical[offset++] = c
unfoldable pub put_char : ℕ → ℕ → Cursor → Cursor
unfolding with_room store_byte
put_char root c s =
    let s' = with_room root s in
    record s' {
      offset = s'.offset + 1;
      memory = store_byte s'.memory (add64 s'.physical s'.offset) c;
    }

-- the bytes of a string, and its zero
unfoldable pub put_string : ℕ → List ℕ → Cursor → Cursor
unfolding put_char
put_string root [] s = put_char root 0 s
put_string root (c ∷ cs) s = put_string root cs (put_char root c s)

-- The strings, and `args_new`.
unfoldable pub put_strings : ℕ → List (List ℕ) → Cursor → List ℕ × Cursor
unfolding put_string
put_strings root [] s = ([], s)
put_strings root (string ∷ strings) s =
    let (places, s') = put_strings root strings (put_string root string s) in
    (add64 s.virt_addr s.offset ∷ places, s')

-- offset += (-offset) & (sizeof(void*) - 1)
unfoldable pub round_up : Cursor → Cursor
round_up s = record s { offset = (s.offset + 7) / 8 * 8 }

unfoldable pub put_pointers : ℕ → List ℕ → Cursor → Cursor
unfolding with_room store
put_pointers root [] s = s
put_pointers root (a ∷ rest) s =
    let s' = with_room root s in
    put_pointers root rest (record s' {
      offset = s'.offset + 8;
      memory = store s'.memory (add64 s'.physical s'.offset) a;
    })

-- `args_new`, `first`, and what is left
pub record Arguments : Type 0 where
  pub places : List ℕ
  pub first : ℕ
  pub cursor : Cursor

unfoldable pub put_arguments : ℕ → List (List ℕ) → ℕ → Memory → Arguments
unfolding next_page put_strings round_up put_pointers
put_arguments root args last m =
    let start : Cursor = record {
      offset = 0;
      physical = 0;
      virt_addr = 0;
      last = last;
      memory = m;
    } in
    let (places, s) = put_strings root args (next_page root start) in
    let s' = round_up s in
    record {
      places = places;
      first = add64 s'.virt_addr s'.offset;
      cursor = put_pointers root places s';
    }
