-- ===== src/Ring/Pbuf.antt =====
-- src/ring/pbuf.rs: a pool of buffers that the kernel chooses from.
pub mod Ledger
pub mod Tokens
pub mod Register
pub mod Circulation
pub mod Tests
use ququmatz.Base.{
  ℕ, zero, suc, ◌+◌, ◌*◌, ◌-◌, ◌/◌, ◌%◌, ◌^◌, Bool, true, false, not, ◌||◌, ◌==◌, leb, ltb,
  if◌then◌else◌, ◌>>=◌, Result, ok, err, Option, some, none, List, get_or, set, bit_and, bit_or,
}
use ququmatz.Base.Word.{add_u32}
use ququmatz.Ring.Window.{slot}

-- `struct IoUringBuf`, but for the half-word that holds the tail in the first one.
pub record IoUringBuf : Type 0 where
  pub addr : ℕ
  pub len : ℕ
  pub bid : ℕ

-- `struct ProvidedBufferRing`; `delivered` is the ledger, of 4096 bytes.
pub record ProvidedBufferRing : Type 0 where
  pub bgid : ℕ
  pub mask : ℕ
  pub entries : ℕ
  pub bufs_addr : ℕ
  pub buf_size : ℕ
  pub tail_local : ℕ
  pub delivered : List ℕ

-- The ring's memory, which the kernel reads: the entries and the published tail.
pub record BufRing : Type 0 where
  pub bufs : List IoUringBuf
  pub tail : ℕ

-- `struct AcknowledgedBuffer`
pub record AcknowledgedBuffer : Type 0 where
  pub buf_id : ℕ
  pub len : ℕ

pub data AcknowledgeError : Type 0 where
  out_of_range : ℕ → ℕ → AcknowledgeError
  already_acknowledged : ℕ → AcknowledgeError

-- `buffer_slice`: the offset and the length of the bytes, inside the pool's region.
unfoldable pub buffer_slice : ProvidedBufferRing → ℕ → ℕ → Option (ℕ × ℕ)
buffer_slice p buf_id len =
    if leb p.entries buf_id || ltb p.buf_size len then none else some (buf_id * p.buf_size, len)

unfoldable pub ledger_get : List ℕ → ℕ → Bool
ledger_get delivered buf_id =
    not (bit_and (get_or delivered (buf_id / 8) 0) (2 ^ (buf_id % 8)) == 0)

-- The complement of a byte is its difference from 255.
unfoldable pub ledger_set : List ℕ → ℕ → Bool → List ℕ
ledger_set delivered buf_id value =
    let byte = get_or delivered (buf_id / 8) 0 in
    let mask = 2 ^ (buf_id % 8) in
    set delivered (buf_id / 8) (if value then bit_or byte mask else bit_and byte (255 - mask))

unfoldable pub acknowledge :
    ProvidedBufferRing → ℕ → ℕ → ProvidedBufferRing × Result AcknowledgedBuffer AcknowledgeError
unfolding ledger_get ledger_set
acknowledge p buf_id len =
    if leb p.entries buf_id || ltb p.buf_size len
    then (p, err (out_of_range buf_id len))
    else if ledger_get p.delivered buf_id
    then (p, err (already_acknowledged buf_id))
    else (
      record p { delivered = ledger_set p.delivered buf_id true },
      ok (record { buf_id = buf_id; len = len }),
    )

-- `recycle_raw`: the buffer goes into the entry of the local tail.
unfoldable pub recycle_raw : ProvidedBufferRing → BufRing → ℕ → ℕ → ℕ → ProvidedBufferRing × BufRing
recycle_raw p m addr len bid = (
  record p { tail_local = add_u32 p.tail_local 1 },
  record m {
    bufs = set m.bufs (slot p.mask p.tail_local) (record { addr = addr; len = len; bid = bid });
  },
)

-- `commit`: the tail that the kernel reads has 16 bits.
unfoldable pub commit : ProvidedBufferRing → BufRing → BufRing
commit p m = record m { tail = p.tail_local % 2 ^ 16 }

-- `recycle`: `none` is the panic of the assertion.
unfoldable pub recycle : ProvidedBufferRing → BufRing → ℕ → Option (ProvidedBufferRing × BufRing)
unfolding recycle_raw
recycle p m buf_id =
    if ltb buf_id p.entries
    then some (recycle_raw p m (p.bufs_addr + buf_id * p.buf_size) p.buf_size buf_id)
    else none

-- Also the `Drop` of `CompletedBuffer`, and that of `Arrival` in src/owned/multishot.rs.
unfoldable pub recycle_and_commit :
    ProvidedBufferRing → BufRing → ℕ → Option (ProvidedBufferRing × BufRing)
unfolding recycle commit
recycle_and_commit p m buf_id = recycle p m buf_id >>= λ (p', m'). some (p', commit p' m')

-- `struct CompletedBuffer`: the lease of `claim`.
pub record CompletedBuffer : Type 0 where
  pub buf_id : ℕ
  pub len : ℕ

unfoldable pub claim : ProvidedBufferRing → ℕ → ℕ → Option CompletedBuffer
claim p buf_id len =
    if leb p.entries buf_id || ltb p.buf_size len
    then none
    else some (record { buf_id = buf_id; len = len })

-- `CompletedBuffer::bytes`, as an offset and a length: none are no bytes.
unfoldable pub bytes : ProvidedBufferRing → CompletedBuffer → ℕ × ℕ
unfolding buffer_slice
bytes p b = elim (buffer_slice p b.buf_id b.len) [ some range ↦ range | none ↦ (0, 0) ]

unfoldable pub recycle_acknowledged :
    ProvidedBufferRing → BufRing → AcknowledgedBuffer → Option (ProvidedBufferRing × BufRing)
unfolding recycle ledger_set
recycle_acknowledged p m token =
    recycle (record p { delivered = ledger_set p.delivered token.buf_id false }) m token.buf_id

-- The loop of `register_provided_buffers_on` that fills the ring: the buffers from `i` on.
unfoldable pub populate : ℕ → ℕ → ProvidedBufferRing → BufRing → ProvidedBufferRing × BufRing
unfolding recycle_raw
populate zero i p m = (p, m)
populate (suc n) i p m =
    let (p', m') = recycle_raw p m (p.bufs_addr + i * p.buf_size) p.buf_size (i % 2 ^ 16) in
    populate n (i + 1) p' m'
