-- ===== src/Ring/Sq/Queue.antt =====
-- src/ring/mod.rs: the submission queue seen as the list of its entries.
use ququmatz.Base.{
  ℕ, suc, ◌+◌, ◌≤◌, ◌<◌, ◌≡◌, refl, ◌∙◌, List, [], ◌∷◌, ◌++◌, ◌⊎◌, inl, inr, ◌≢◌, arith, length,
  length-set, set, get_or, ok, err,
}
use native.Mathlib.Decide.{dec_lt}
use ququmatz.Base.Word.{add_u32, sub_u32, u32_mod}
use ququmatz.Types.{IoUringSqe, zeroed}
use ququmatz.Error.{Error, SubmitError}
use ququmatz.Ring.{Shared, SqSide}
use ququmatz.Ring.Window.{window, slot, IsMask, cap-le, window-set}
use ququmatz.Ring.Sq.{push, flush_sq_tail, sq_space_left, sq_capacity}

-- The entries between the kernel's head and the local tail, oldest first.
abbrev pub queued : SqSide → Shared → ℕ
queued s m = sub_u32 s.sq_tail_local m.sq_head

abbrev pub contents : SqSide → Shared → List IoUringSqe
contents s m = window zeroed s.sq_mask m.sqes m.sq_head (queued s m)

-- What is published to the kernel is a part of what is queued.
pub record IsValid (k : ℕ) (s : SqSide) (m : Shared) : Type 0 where
  pub mask : IsMask k s.sq_mask
  pub cells : length m.sqes ≡ s.sq_mask + 1
  pub head : m.sq_head < u32_mod
  pub tail : m.sq_tail < u32_mod
  pub local : s.sq_tail_local < u32_mod
  pub fits : queued s m ≤ s.sq_mask + 1
  pub published : sub_u32 m.sq_tail m.sq_head ≤ queued s m

-- Nothing of the other queue's memory matters here.
pub IsValid-frame :
    {k : ℕ} {s : SqSide} {m n : Shared}
    → n.sqes ≡ m.sqes
    → n.sq_head ≡ m.sq_head
    → n.sq_tail ≡ m.sq_tail
    → IsValid k s m
    → IsValid k s n × (contents s n ≡ contents s m)
IsValid-frame e h t v = (
  record {
    mask = v.mask;
    cells = rw e v.cells;
    head = rw h v.head;
    tail = rw t v.tail;
    local = v.local;
    fits = rw h v.fits;
    published = rw (h, t) v.published;
  },
  rw (e, h),
)

module _ {k : ℕ} {s : SqSide} {m : Shared} (v : IsValid k s m) where
  pub push_full :
      (sqe : IoUringSqe)
      → queued s m ≡ s.sq_mask + 1
      → push s m sqe ≡ (s, m, err (Error.submit SubmitError.queue_full))
  unfolding push
  push_full sqe e = ground (arith, cap-le v.mask)

  -- The state after a push into a free cell.
  abbrev pub after_s : SqSide
  after_s = record s { sq_tail_local = add_u32 s.sq_tail_local 1 }

  abbrev pub after_m : IoUringSqe → Shared
  after_m sqe = record m { sqes = set m.sqes (slot s.sq_mask s.sq_tail_local) sqe }

  pub push_free :
      (sqe : IoUringSqe) → queued s m < s.sq_mask + 1 → push s m sqe ≡ (after_s, after_m sqe, ok tt)
  unfolding push
  push_free sqe h = ground (arith, cap-le v.mask)

  queued-push :
      queued s m < s.sq_mask + 1 → sub_u32 (add_u32 s.sq_tail_local 1) m.sq_head ≡ suc (queued s m)
  queued-push h = omega (arith, cap-le v.mask, v.head, v.local)

  pub contents-push :
      (sqe : IoUringSqe)
      → queued s m < s.sq_mask + 1
      → contents after_s (after_m sqe) ≡ contents s m ++ (sqe ∷ [])
  contents-push sqe h = rw (queued-push h) (
      window-set zeroed s.sq_mask m.sqes sqe (queued s m) m.sq_head s.sq_tail_local v.mask v.cells
        v.head h (omega (arith, v.head, v.local)))

  pub push-IsValid :
      (sqe : IoUringSqe) → queued s m < s.sq_mask + 1 → IsValid k after_s (after_m sqe)
  push-IsValid sqe h = record {
    mask = v.mask;
    cells = length-set m.sqes (slot s.sq_mask s.sq_tail_local) sqe ∙ v.cells;
    head = v.head;
    tail = v.tail;
    local = omega arith;
    fits = omega (arith, queued-push h);
    published = omega (arith, queued-push h, v.published);
  }

  -- On a valid submission queue a push either finds all cells taken, changes nothing and reports
  -- that the queue is full, or succeeds, puts the entry behind those queued, and leaves the queue
  -- valid.
  pub push_refines :
      (sqe : IoUringSqe)
      → let (s', m', r) = push s m sqe in
        ((queued s m ≡ s.sq_mask + 1)
          × (s' ≡ s)
          × (m' ≡ m)
          × (r ≡ err (Error.submit SubmitError.queue_full)))
        ⊎ ((queued s m < s.sq_mask + 1)
            × (r ≡ ok tt)
            × (contents s' m' ≡ contents s m ++ (sqe ∷ []))
            × IsValid k s' m')
  push_refines sqe = elim (dec_lt (queued s m) (s.sq_mask + 1)) [
    | yes h ↦ rw (push_free sqe h) (inr (h, refl, contents-push sqe h, push-IsValid sqe h))
    | no h ↦
        let full : queued s m ≡ s.sq_mask + 1 = omega (arith, v.fits) in
        rw (push_full sqe full) (inl (full, refl, refl, refl))
  ]

  -- On a valid submission queue the space left and the number of entries queued make up the
  -- capacity.
  pub sq_space_left-add-queued : sq_space_left s m + queued s m ≡ sq_capacity s
  unfolding sq_space_left sq_capacity
  sq_space_left-add-queued = omega (arith, cap-le v.mask, v.fits)

  -- Publishing the tail changes no entry.
  pub flush_sq_tail-IsValid :
      IsValid k s (flush_sq_tail s m) × (contents s (flush_sq_tail s m) ≡ contents s m)
  unfolding flush_sq_tail
  flush_sq_tail-IsValid = (
    record {
      mask = v.mask;
      cells = v.cells;
      head = v.head;
      tail = v.local;
      local = v.local;
      fits = v.fits;
      published = omega arith;
    },
    refl,
  )

  -- When the kernel advances its head past a published entry, the queue loses its oldest.
  pub advance_head :
      m.sq_head ≢ m.sq_tail
      → let m' : Shared = record m { sq_head = add_u32 m.sq_head 1 } in
        IsValid k s m'
        × (contents s m ≡ get_or m.sqes (slot s.sq_mask m.sq_head) zeroed ∷ contents s m')
  advance_head h =
      let one_less : queued s m ≡ suc (sub_u32 s.sq_tail_local (add_u32 m.sq_head 1)) =
        omega (arith, v.published, v.head, v.tail, v.local) in
      let seen : sub_u32 m.sq_tail m.sq_head ≡ suc (sub_u32 m.sq_tail (add_u32 m.sq_head 1)) =
        omega (arith, v.head, v.tail) in
      (
        record {
          mask = v.mask;
          cells = v.cells;
          head = omega arith;
          tail = v.tail;
          local = v.local;
          fits = omega (arith, v.fits);
          published = omega (arith, v.published);
        },
        rw one_less,
      )

  pub submitted-IsValid : (n : ℕ) → IsValid k (record s { sq_submitted = n }) m
  submitted-IsValid n = record {
    mask = v.mask;
    cells = v.cells;
    head = v.head;
    tail = v.tail;
    local = v.local;
    fits = v.fits;
    published = v.published;
  }
