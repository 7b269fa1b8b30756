-- ===== src/Ring/Layout/Array.antt =====
-- src/ring/layout.rs: the indirection array that `parse_sq` fills, and what the kernel reads by it.
use ququmatz.Base.{ℕ, zero, suc, ◌+◌, ◌*◌, ◌^◌, ◌≤◌, ◌<◌, ◌≡◌, refl, subst, true, false, arith}
use ququmatz.Types.{IoUringParams}
use ququmatz.Ring.Kernel.{Kernel, IsMemory}
use ququmatz.Ring.Window.{slot, IsMask, slot-lt, cap-le}
use ququmatz.Ring.NoMmap.{u32_bytes}
use ququmatz.Ring.Layout.{fill_sq_array, parse_sq}

module _ {S : Type 0} (k : Kernel S) (mem : IsMemory k) where
  -- The loop writes nothing below its first word.
  load-fill_sq_array_below :
      (s : S) (base n i b : ℕ)
      → b + 4 ≤ base + i * u32_bytes
      → k.load (fill_sq_array k s base n i) b ≡ k.load s b
  unfolding fill_sq_array
  load-fill_sq_array_below s base zero i b h = refl
  load-fill_sq_array_below s base (suc n) i b h =
      rw
        (load-fill_sq_array_below (k.store s (base + i * u32_bytes) i) base n (i + 1) b
          (omega arith))
        (mem.load_below s (base + i * u32_bytes) b i h)

  load-fill_sq_array :
      (s : S) (base n i d : ℕ)
      → d < n
      → i + n ≤ 2 ^ 32
      → k.load (fill_sq_array k s base n i) (base + (i + d) * u32_bytes) ≡ i + d
  unfolding fill_sq_array
  load-fill_sq_array s base zero i d h l = absurd (omega arith)
  load-fill_sq_array s base (suc n) i zero h l =
      let here : base + (i + 0) * u32_bytes ≡ base + i * u32_bytes = omega arith in
      let s' = k.store s (base + i * u32_bytes) i in
      rw (here, load-fill_sq_array_below s' base n (i + 1) (base + i * u32_bytes) (omega arith))
        (let e = mem.load_stored s (base + i * u32_bytes) i (omega arith) in omega (arith, e))
  load-fill_sq_array s base (suc n) i (suc d) h l =
      let there : i + suc d ≡ (i + 1) + d = omega arith in
      rw (there) (
        load-fill_sq_array (k.store s (base + i * u32_bytes) i) base n (i + 1) d (omega arith)
          (omega arith))

  -- In a memory where a load gives what was stored last, with a mask that fits the entries and a
  -- tail below the array, a ring with the indirection array has the same fields as one without it,
  -- and for each position the array leads the kernel to the cell of the position under the mask,
  -- the one it uses without the array.
  pub parse_sq-array :
      (s : S) (base sqes w mask : ℕ) (p : IoUringParams) (head : ℕ)
      → IsMask w mask
      → p.sq_entries ≡ mask + 1
      → p.sq_off.tail + 4 ≤ p.sq_off.array
      → let (filled, parts) = parse_sq k s base sqes p true in
        (parts ≡ (parse_sq k s base sqes p false).1)
        × (k.load filled (base + p.sq_off.array + slot mask head * u32_bytes) ≡ slot mask head)
  unfolding parse_sq
  parse_sq-array s base sqes w mask p head v e below =
      let start = base + p.sq_off.array in
      let n = p.sq_entries in
      let same = load-fill_sq_array_below s start n 0 (base + p.sq_off.tail) (omega arith) in
      let small = slot-lt head v in
      let cell =
        load-fill_sq_array s start n 0 (slot mask head) (omega arith) (omega (arith, cap-le v)) in
      let from_zero : 0 + slot mask head ≡ slot mask head = omega arith in
      (
        rw (same) refl,
        subst (λ c. k.load (fill_sq_array k s start n 0) (start + c * u32_bytes) ≡ c) from_zero
            cell,
      )
