-- ===== src/Types/RecvmsgOut/Frame.antt =====
-- src/types/net.rs: the kernel's layout of a buffer, and what `RecvmsgOut::parse` makes of it.
use ququmatz.Base.{
  ℕ, zero, suc, ◌+◌, ◌^◌, ◌≤◌, ◌<◌, ◌≡◌, refl, ap, ◌∙◌, min, some, none, List, [], ◌∷◌, ◌++◌,
  length, length-append, take, drop, ◌↔◌, arith,
}
use native.Mathlib.Decide.{dec_lt}
use ququmatz.Types.RecvmsgOut.{ByteOrder, Header, size, checked_add, slice, read_u32, parse}

-- What the standard library says of the two conversions.
pub record IsInverse (order : ByteOrder) : Type 0 where
  pub decoded :
      (n : ℕ)
      → n < 2 ^ 32
      → let (a, b, c, d) = order.to_ne_bytes n in order.from_ne_bytes a b c d ≡ n

-- The header as the kernel writes it, the two regions of fixed width, and the payload.
unfoldable pub frame : ByteOrder → Header → List ℕ → List ℕ → List ℕ → List ℕ
frame order h name control payload =
    let (a0, a1, a2, a3) = order.to_ne_bytes h.namelen in
    let (b0, b1, b2, b3) = order.to_ne_bytes h.controllen in
    let (c0, c1, c2, c3) = order.to_ne_bytes h.payloadlen in
    let (d0, d1, d2, d3) = order.to_ne_bytes h.flags in
    a0
    ∷ a1
    ∷ a2
    ∷ a3
    ∷ b0
    ∷ b1
    ∷ b2
    ∷ b3
    ∷ c0
    ∷ c1
    ∷ c2
    ∷ c3
    ∷ d0
    ∷ d1
    ∷ d2
    ∷ d3
    ∷ (name ++ (control ++ payload))

drop-append : (xs ys : List ℕ) → drop (length xs) (xs ++ ys) ≡ ys
drop-append [] ys = refl
drop-append (x ∷ xs) ys = drop-append xs ys

drop_add : (a b : ℕ) (xs : List ℕ) → drop (a + b) xs ≡ drop b (drop a xs)
drop_add zero b xs = let e : 0 + b ≡ b = omega arith in rw (e) refl
drop_add (suc a) zero [] = let e : suc a + 0 ≡ suc a = omega arith in rw (e) refl
drop_add (suc a) (suc b) [] = let e : suc a + suc b ≡ suc (a + suc b) = omega arith in rw (e) refl
drop_add (suc a) b (x ∷ xs) =
    let e : suc a + b ≡ suc (a + b) = omega arith in rw (e) (drop_add a b xs)

take-append : (n : ℕ) (xs ys : List ℕ) → n ≤ length xs → take n (xs ++ ys) ≡ take n xs
take-append zero xs ys h = refl
take-append (suc n) [] ys h = absurd (omega arith)
take-append (suc n) (x ∷ xs) ys h = ap (λ zs. x ∷ zs) (take-append n xs ys (omega arith))

-- The test of the length is all that `parse` refuses, when the reserved widths are `u32` values.
parse_long :
    (order : ByteOrder) (buf : List ℕ) (n c : ℕ)
    → n < 2 ^ 32
    → c < 2 ^ 32
    → size + n + c ≤ length buf
    → let header : Header = record {
      namelen = read_u32 order buf 0;
      controllen = read_u32 order buf 4;
      payloadlen = read_u32 order buf 8;
      flags = read_u32 order buf 12;
    } in
      parse order buf n c
      ≡ some (record {
        header = header;
        name = slice buf size (min header.namelen n);
        control = slice buf (size + n) (min header.controllen c);
        payload = drop (size + n + c) buf;
      })
unfolding parse checked_add
parse_long order buf n c hn hc h = ground arith

parse_short :
    (order : ByteOrder) (buf : List ℕ) (n c : ℕ)
    → n < 2 ^ 32
    → c < 2 ^ 32
    → length buf < size + n + c
    → parse order buf n c ≡ none
unfolding parse checked_add
parse_short order buf n c hn hc h = ground arith

module _ (order : ByteOrder) (inv : IsInverse order) where
  -- The four words of a header are read back.
  header-frame :
      (h : Header) (name control payload : List ℕ)
      → h.namelen < 2 ^ 32
      → h.controllen < 2 ^ 32
      → h.payloadlen < 2 ^ 32
      → h.flags < 2 ^ 32
      → let buf = frame order h name control payload in
        (read_u32 order buf 0 ≡ h.namelen)
        × (read_u32 order buf 4 ≡ h.controllen)
        × (read_u32 order buf 8 ≡ h.payloadlen)
        × (read_u32 order buf 12 ≡ h.flags)
  unfolding frame read_u32
  header-frame h name control payload a b c d = (
    inv.decoded h.namelen a,
    inv.decoded h.controllen b,
    inv.decoded h.payloadlen c,
    inv.decoded h.flags d,
  )

  -- A buffer of which the pieces are known.
  parse_parts :
      (buf : List ℕ) (h : Header) (name control payload : List ℕ)
      → read_u32 order buf 0 ≡ h.namelen
      → read_u32 order buf 4 ≡ h.controllen
      → read_u32 order buf 8 ≡ h.payloadlen
      → read_u32 order buf 12 ≡ h.flags
      → length name < 2 ^ 32
      → length control < 2 ^ 32
      → size + length name + length control ≤ length buf
      → drop size buf ≡ name ++ (control ++ payload)
      → drop (size + length name) buf ≡ control ++ payload
      → drop (size + length name + length control) buf ≡ payload
      → parse order buf (length name) (length control)
        ≡ some (record {
          header = h;
          name = take (min h.namelen (length name)) name;
          control = take (min h.controllen (length control)) control;
          payload = payload;
        })
  parse_parts buf h name control payload w0 w1 w2 w3 hn hc long at_name at_control at_payload =
      parse_long order buf (length name) (length control) hn hc long
      ∙ rw
          (
            w0,
            w1,
            w2,
            w3,
            at_name,
            at_control,
            at_payload,
            take-append (min h.namelen (length name)) name (control ++ payload) (omega arith),
            take-append (min h.controllen (length control)) control payload (omega arith),
          )
          refl

  -- With conversions of bytes that are inverse, a buffer that holds a header, a name and a control
  -- region of the reserved widths, and a payload is parsed into that header, the part of the name
  -- and of the control region that the header says is filled, and the payload.
  pub parse-frame :
      (h : Header) (name control payload : List ℕ)
      → h.namelen < 2 ^ 32
      → h.controllen < 2 ^ 32
      → h.payloadlen < 2 ^ 32
      → h.flags < 2 ^ 32
      → length name < 2 ^ 32
      → length control < 2 ^ 32
      → parse order (frame order h name control payload) (length name) (length control)
        ≡ some (record {
          header = h;
          name = take (min h.namelen (length name)) name;
          control = take (min h.controllen (length control)) control;
          payload = payload;
        })
  unfolding frame
  parse-frame h name control payload a b c d hn hc =
      let buf = frame order h name control payload in
      let (w0, w1, w2, w3) = header-frame h name control payload a b c d in
      let long : size + length name + length control ≤ length buf =
        omega (arith, length-append name (control ++ payload), length-append control payload) in
      let at_name : drop size buf ≡ name ++ (control ++ payload) = refl in
      let at_control : drop (size + length name) buf ≡ control ++ payload =
        rw (drop_add size (length name) buf) (drop-append name (control ++ payload)) in
      let at_payload : drop (size + length name + length control) buf ≡ payload =
        rw (drop_add (size + length name) (length control) buf, at_control)
          (drop-append control payload) in
      parse_parts buf h name control payload w0 w1 w2 w3 hn hc long at_name at_control at_payload

-- With reserved widths below 2 ^ 32, a buffer is refused exactly when it is shorter than the header
-- and the two reserved regions.
pub parse-none :
    (order : ByteOrder) (buf : List ℕ) (n c : ℕ)
    → n < 2 ^ 32
    → c < 2 ^ 32
    → (parse order buf n c ≡ none) ↔ (length buf < size + n + c)
parse-none order buf n c hn hc = elim (dec_lt (length buf) (size + n + c)) [
  | yes h ↦ let e = parse_short order buf n c hn hc h in ground arith
  | no h ↦ let e = parse_long order buf n c hn hc (omega arith) in ground arith
]
