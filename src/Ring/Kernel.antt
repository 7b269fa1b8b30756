-- ===== src/Ring/Kernel.antt =====
-- The calls of src/syscall/mod.rs that the setup of a ring makes, and the memory behind its
-- pointers. What the kernel does is a parameter; a state `s` of it holds the process's mappings.
pub mod Debt
use ququmatz.Base.{
  ℕ, ◌+◌, ◌-◌, ◌^◌, ◌≤◌, ◌<◌, ◌≡◌, ◌≢◌, ◌&&◌, ◌==◌, Bool, if◌then◌else◌, Result, ok, err, List, [],
  ◌∷◌,
}
use ququmatz.Types.{IoUringParams}
use ququmatz.Error.{Errno}
use ququmatz.Ring.Resources.{MappedRegion, Cleanup}
use ququmatz.Ring.Resources

-- What a mapping is of: fresh memory, or a part of a ring's file, by the offset that names it.
pub data Backing : Type 0 where
  anonymous : Backing
  ring_file : ℕ → ℕ → Backing

pub record Kernel (S : Type 0) : Type 0 where
  pub setup : S → ℕ → IoUringParams → S × IoUringParams × Result ℕ Errno
  pub mmap : S → Backing → ℕ → S × Result ℕ Errno
  pub munmap : S → ℕ → ℕ → S
  pub close : S → ℕ → S
  pub load : S → ℕ → ℕ
  pub store : S → ℕ → ℕ → S

module _ {S : Type 0} where
  -- The system calls of a cleanup, whose results are ignored.
  unfoldable pub perform : Kernel S → S → List Cleanup → S
  perform k s [] = s
  perform k s (Resources.munmap r ∷ cs) = perform k (k.munmap s r.addr r.len) cs
  perform k s (Resources.close fd ∷ cs) = perform k (k.close s fd) cs

abbrev pub same_region : MappedRegion → ℕ → ℕ → Bool
same_region r addr len = (r.addr == addr) && (r.len == len)

-- How often a region is mapped and a descriptor open, in a state of the kernel.
pub record Holdings (S : Type 0) : Type 0 where
  pub held : S → MappedRegion → ℕ
  pub opened : S → ℕ → ℕ

abbrev pub one_if : Bool → ℕ
one_if b = if b then 1 else 0

-- What the manual pages say of the calls: each makes or undoes what it returns, and nothing else.
-- A mapping has a length.
pub record IsDocumented {S : Type 0} (k : Kernel S) (h : Holdings S) : Type 0 where
  pub setup_ok :
      (s : S) (n : ℕ) (p : IoUringParams) (fd : ℕ)
      → (k.setup s n p).2 ≡ ok fd
      → (g : ℕ) → h.opened (k.setup s n p).0 g ≡ h.opened s g + one_if (g == fd)
  pub setup_err :
      (s : S) (n : ℕ) (p : IoUringParams) (e : Errno)
      → (k.setup s n p).2 ≡ err e
      → (g : ℕ) → h.opened (k.setup s n p).0 g ≡ h.opened s g
  pub setup_held :
      (s : S) (n : ℕ) (p : IoUringParams) (r : MappedRegion)
      → h.held (k.setup s n p).0 r ≡ h.held s r
  pub mmap_ok :
      (s : S) (b : Backing) (n a : ℕ)
      → (k.mmap s b n).1 ≡ ok a
      → (r : MappedRegion) → h.held (k.mmap s b n).0 r ≡ h.held s r + one_if (same_region r a n)
  pub mmap_pos : (s : S) (b : Backing) (n a : ℕ) → (k.mmap s b n).1 ≡ ok a → n ≢ 0
  pub mmap_err :
      (s : S) (b : Backing) (n : ℕ) (e : Errno)
      → (k.mmap s b n).1 ≡ err e
      → (r : MappedRegion) → h.held (k.mmap s b n).0 r ≡ h.held s r
  pub mmap_opened : (s : S) (b : Backing) (n g : ℕ) → h.opened (k.mmap s b n).0 g ≡ h.opened s g
  pub munmap_held :
      (s : S) (a n : ℕ) (r : MappedRegion)
      → h.held (k.munmap s a n) r ≡ h.held s r - one_if (same_region r a n)
  pub munmap_opened : (s : S) (a n g : ℕ) → h.opened (k.munmap s a n) g ≡ h.opened s g
  pub close_held : (s : S) (fd : ℕ) (r : MappedRegion) → h.held (k.close s fd) r ≡ h.held s r
  pub close_opened :
      (s : S) (fd g : ℕ) → h.opened (k.close s fd) g ≡ h.opened s g - one_if (g == fd)
  pub store_held : (s : S) (a v : ℕ) (r : MappedRegion) → h.held (k.store s a v) r ≡ h.held s r
  pub store_opened : (s : S) (a v g : ℕ) → h.opened (k.store s a v) g ≡ h.opened s g

-- The memory behind the pointers, for aligned words: a load returns what was stored last.
pub record IsMemory {S : Type 0} (k : Kernel S) : Type 0 where
  pub load_stored : (s : S) (a v : ℕ) → v < 2 ^ 32 → k.load (k.store s a v) a ≡ v
  pub load_below : (s : S) (a b v : ℕ) → b + 4 ≤ a → k.load (k.store s a v) b ≡ k.load s b
  pub load_above : (s : S) (a b v : ℕ) → a + 4 ≤ b → k.load (k.store s a v) b ≡ k.load s b
