-- ===== src/Owned/MsgRegion/Memory.antt =====
-- The memory behind the pointers of src/owned/msgregion.rs: whole values, written at addresses.
use ququmatz.Base.{
  ℕ, ◌+◌, ◌≤◌, ◌≡◌, ◌||◌, ◌&&◌, ◌==◌, leb, if◌then◌else◌, Option, some, none, List, [], ◌∷◌, ◌⊎◌,
  inl, inr, arith,
}
use ququmatz.Types.{IoVec, SockAddrIn, MsgHdr}

pub data Cell : Type 0 where
  header : MsgHdr → Cell
  descriptor : IoVec → Cell
  address : SockAddrIn → Cell

-- `size_of` the three types, where a pointer has 8 bytes.
abbrev pub msg_hdr_bytes : ℕ
msg_hdr_bytes = 56

abbrev pub io_vec_bytes : ℕ
io_vec_bytes = 16

abbrev pub sock_addr_bytes : ℕ
sock_addr_bytes = 16

abbrev pub cell_bytes : Cell → ℕ
cell_bytes (header h) = msg_hdr_bytes
cell_bytes (descriptor v) = io_vec_bytes
cell_bytes (address a) = sock_addr_bytes

-- The writes so far, the last one first.
abbrev pub Writes : Type 0
Writes = List (ℕ × Cell)

-- What is at `n` bytes from `a` on: the last write there, if it was of these bytes and no others.
unfoldable pub load : Writes → ℕ → ℕ → Option Cell
load [] a n = none
load ((at, cell) ∷ ws) a n =
    if leb (a + n) at || leb (at + cell_bytes cell) a
    then load ws a n
    else if (at == a) && (cell_bytes cell == n)
    then some cell
    else none

abbrev pub as_header : Option Cell → Option MsgHdr
as_header (some (header h)) = some h
as_header _ = none

abbrev pub as_descriptor : Option Cell → Option IoVec
as_descriptor (some (descriptor v)) = some v
as_descriptor _ = none

abbrev pub as_address : Option Cell → Option SockAddrIn
as_address (some (address a)) = some a
as_address _ = none

-- A write is read back, and one beside the bytes is passed over.
pub load_here :
    (ws : Writes) (a : ℕ) (cell : Cell) → load ((a, cell) ∷ ws) a (cell_bytes cell) ≡ some cell
unfolding load
load_here ws a (header h) = ground arith
load_here ws a (descriptor v) = ground arith
load_here ws a (address x) = ground arith

pub load_beside :
    (ws : Writes) (at a n : ℕ) (cell : Cell)
    → (a + n ≤ at) ⊎ (at + cell_bytes cell ≤ a)
    → load ((at, cell) ∷ ws) a n ≡ load ws a n
unfolding load
load_beside ws at a n cell (inl h) = ground arith
load_beside ws at a n cell (inr h) = ground arith
