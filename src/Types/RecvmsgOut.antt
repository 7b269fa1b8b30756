-- ===== src/Types/RecvmsgOut.antt =====
-- src/types/net.rs: the buffers that a multishot `recvmsg` fills. Bytes are numbers.
pub mod Frame
pub mod Tests
use ququmatz.Base.{
  ℕ, ◌+◌, ◌^◌, min, leb, ltb, if◌then◌else◌, Option, some, none, List, length, take, drop, get_or,
  ◌>>=◌,
}

-- `u32::from_ne_bytes`, whose order is the machine's, and its inverse.
pub record ByteOrder : Type 0 where
  pub from_ne_bytes : ℕ → ℕ → ℕ → ℕ → ℕ
  pub to_ne_bytes : ℕ → ℕ × ℕ × ℕ × ℕ

-- `struct RecvmsgOut`
pub record Header : Type 0 where
  pub namelen : ℕ
  pub controllen : ℕ
  pub payloadlen : ℕ
  pub flags : ℕ

pub record RecvmsgParts : Type 0 where
  pub header : Header
  pub name : List ℕ
  pub control : List ℕ
  pub payload : List ℕ

-- `RecvmsgOut::SIZE`
abbrev pub size : ℕ
size = 16

-- `usize::checked_add`
unfoldable pub checked_add : ℕ → ℕ → Option ℕ
checked_add a b = if leb (2 ^ 64) (a + b) then none else some (a + b)

-- `&buf[start..start + len]`
abbrev pub slice : List ℕ → ℕ → ℕ → List ℕ
slice buf start len = take len (drop start buf)

module _ (order : ByteOrder) where
  -- `read_u32`, whose callers see to it that the four bytes are there.
  unfoldable pub read_u32 : List ℕ → ℕ → ℕ
  read_u32 buf off =
      order.from_ne_bytes (get_or buf off 0) (get_or buf (off + 1) 0) (get_or buf (off + 2) 0)
        (get_or buf (off + 3) 0)

  unfoldable pub parse : List ℕ → ℕ → ℕ → Option RecvmsgParts
  unfolding checked_add read_u32
  parse buf msg_namelen msg_controllen = checked_add size msg_namelen >>= λ a.
      checked_add a msg_controllen >>= λ fixed.
      let header : Header = record {
        namelen = read_u32 buf 0;
        controllen = read_u32 buf 4;
        payloadlen = read_u32 buf 8;
        flags = read_u32 buf 12;
      } in
      let ctrl_start = size + msg_namelen in
      if ltb (length buf) fixed
      then none
      else some (record {
        header = header;
        name = slice buf size (min header.namelen msg_namelen);
        control = slice buf ctrl_start (min header.controllen msg_controllen);
        payload = drop (ctrl_start + msg_controllen) buf;
      })
