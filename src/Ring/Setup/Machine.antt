-- ===== src/Ring/Setup/Machine.antt =====
-- A small kernel, on which the setup of a ring is tried.
use ququmatz.Base.{
  ℕ, ◌+◌, ◌*◌, ◌-◌, ◌≡◌, ◌≢◌, refl, ap, ok, err, ◌==◌, if◌then◌else◌, Result, arith,
}
use native.Mathlib.Decide.{ℕ_discrete}
use ququmatz.Base.Int.{pos}
use ququmatz.Types.{IoUringParams, no_sq_offsets, no_cq_offsets}
use ququmatz.Error.{Errno, errno}
use ququmatz.Ring.Resources.{MappedRegion}
use ququmatz.Ring.Kernel.{Kernel, Holdings, IsDocumented, IsMemory, one_if, same_region}

-- The state of a small kernel: the mappings that it can still make, what is mapped and open, and the memory.
pub record Machine : Type 0 where
  pub budget : ℕ
  pub mapped : MappedRegion → ℕ
  pub opened : ℕ → ℕ
  pub words : ℕ → ℕ

abbrev pub page : ℕ → ℕ
page n = 4096 * n

unfoldable pub map_one : Machine → ℕ → Machine × Result ℕ Errno
map_one s n =
    if n == 0
    then (s, err (errno (pos 22)))
    else if s.budget == 0
    then (s, err (errno (pos 12)))
    else (
      record s {
        budget = s.budget - 1;
        mapped = λ r. s.mapped r + one_if (same_region r (page s.budget) n);
      },
      ok (page s.budget),
    )

-- Two entries, in a ring whose array lies behind the completions.
abbrev pub filled : IoUringParams → IoUringParams
filled p = record p {
  sq_entries = 2;
  cq_entries = 4;
  features = 1;
  sq_off = record no_sq_offsets { head = 0; tail = 4; ring_mask = 8; flags = 12; array = 192 };
  cq_off = record no_cq_offsets { head = 16; tail = 20; ring_mask = 24; cqes = 64 };
}

abbrev pub kernel : Kernel Machine
kernel = record {
  setup = λ s n p. (record s { opened = λ g. s.opened g + one_if (g == 3) }, filled p, ok 3);
  mmap = λ s b n. map_one s n;
  munmap = λ s a n. record s { mapped = λ r. s.mapped r - one_if (same_region r a n) };
  close = λ s fd. record s { opened = λ g. s.opened g - one_if (g == fd) };
  load = λ s a. s.words a;
  store = λ s a v. record s { words = λ b. if b == a then v else s.words b };
}

abbrev pub holdings : Holdings Machine
holdings = record { held = λ s r. s.mapped r; opened = λ s g. s.opened g }

map_one_ok :
    (s : Machine) (n a : ℕ)
    → (map_one s n).1 ≡ ok a
    → (n ≢ 0)
      × (page s.budget ≡ a)
      × ((r : MappedRegion)
          → (map_one s n).0.mapped r ≡ s.mapped r + one_if (same_region r (page s.budget) n))
unfolding map_one
map_one_ok s n a e = elim (ℕ_discrete n 0) [
  | yes y ↦ absurd (let h = e in ground arith)
  | no y ↦ elim (ℕ_discrete s.budget 0) [
    | yes z ↦ absurd (let h = e in ground arith)
    | no z ↦ (y, ground arith, λ r. ground arith)
  ]
]

map_one_err : (s : Machine) (n : ℕ) (e : Errno) → (map_one s n).1 ≡ err e → (map_one s n).0 ≡ s
unfolding map_one
map_one_err s n e h = ground arith

map_one_opened : (s : Machine) (n g : ℕ) → (map_one s n).0.opened g ≡ s.opened g
unfolding map_one
map_one_opened s n g = ground arith

pub kernel-IsDocumented : IsDocumented kernel holdings
unfolding map_one
kernel-IsDocumented = record {
  setup_ok = λ s n p fd e g. let h = e in ground arith;
  setup_err = λ s n p c e g. absurd (let h = e in ground arith);
  setup_held = λ s n p r. refl;
  mmap_ok = λ s b n a e r. let (ne, at, more) = map_one_ok s n a e in rw (← at) (more r);
  mmap_pos = λ s b n a e. (map_one_ok s n a e).0;
  mmap_err = λ s b n c e r. ap (λ t. t.mapped r) (map_one_err s n c e);
  mmap_opened = λ s b n g. map_one_opened s n g;
  munmap_held = λ s a n r. refl;
  munmap_opened = λ s a n g. refl;
  close_held = λ s fd r. refl;
  close_opened = λ s fd g. refl;
  store_held = λ s a v r. refl;
  store_opened = λ s a v g. refl;
}

pub kernel-IsMemory : IsMemory kernel
kernel-IsMemory = record {
  load_stored = λ s a v h. ground arith;
  load_below = λ s a b v h. ground arith;
  load_above = λ s a b v h. ground arith;
}

-- A machine that can make so many mappings; the masks of the rings are as the kernel sets them.
abbrev pub machine : ℕ → Machine
machine budget = record {
  budget = budget;
  mapped = λ r. 0;
  opened = λ g. 0;
  words = λ a. if a == 12296 then 1 else if a == 12312 then 3 else 0;
}
