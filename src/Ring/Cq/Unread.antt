-- ===== src/Ring/Cq/Unread.antt =====
-- src/ring/mod.rs: the completion queue seen as the list of what is unread.
use ququmatz.Base.{
  ℕ, suc, ◌+◌, ◌≤◌, ◌<◌, ◌≡◌, refl, sym, ap, ◌∙◌, List, [], ◌∷◌, ◌++◌, ◌⊎◌, inl, inr, ◌≢◌, arith,
  length, length-set, set, get_or, some, none,
}
use native.Mathlib.Decide.{ℕ_discrete}
use ququmatz.Base.Word.{add_u32, sub_u32, u32_mod}
use ququmatz.Types.{IoUringCqe, default_cqe}
use ququmatz.Ring.{Shared, CqSide}
use ququmatz.Ring.Window.{window, slot, IsMask, cap-le, length-window, window-set}
use ququmatz.Ring.Cq.{of_cqe, complete, flush_cq_head, size_hint}

-- The entries that the kernel has posted and the program has not read, oldest first.
abbrev pub unread : CqSide → Shared → List IoUringCqe
unread c m = window default_cqe c.cq_mask m.cqes c.cq_head_local (sub_u32 m.cq_tail c.cq_head_local)

-- The published head is behind the local one, and no more cells are in use than there are.
pub record IsValid (k : ℕ) (c : CqSide) (m : Shared) : Type 0 where
  pub mask : IsMask k c.cq_mask
  pub cells : length m.cqes ≡ c.cq_mask + 1
  pub head : m.cq_head < u32_mod
  pub tail : m.cq_tail < u32_mod
  pub local : c.cq_head_local < u32_mod
  pub behind : sub_u32 m.cq_tail c.cq_head_local ≤ sub_u32 m.cq_tail m.cq_head
  pub fits : sub_u32 m.cq_tail m.cq_head ≤ c.cq_mask + 1

-- Nothing of the other queue's memory matters here.
pub IsValid-frame :
    {k : ℕ} {c : CqSide} {m n : Shared}
    → n.cqes ≡ m.cqes
    → n.cq_head ≡ m.cq_head
    → n.cq_tail ≡ m.cq_tail
    → IsValid k c m
    → IsValid k c n × (unread c n ≡ unread c m)
IsValid-frame e h t v = (
  record {
    mask = v.mask;
    cells = rw e v.cells;
    head = rw h v.head;
    tail = rw t v.tail;
    local = v.local;
    behind = rw (h, t) v.behind;
    fits = rw (h, t) v.fits;
  },
  rw (e, t),
)

pub complete-none :
    (c : CqSide) (m : Shared) → c.cq_head_local ≡ m.cq_tail → complete c m ≡ (c, none)
unfolding complete
complete-none c m e = ground arith

pub complete-some :
    (c : CqSide) (m : Shared)
    → c.cq_head_local ≢ m.cq_tail
    → complete c m ≡ (
      record c { cq_head_local = add_u32 c.cq_head_local 1 },
      some (of_cqe (get_or m.cqes (slot c.cq_mask c.cq_head_local) default_cqe)),
    )
unfolding complete
complete-some c m e = ground arith

module _ {k : ℕ} {c : CqSide} {m : Shared} (v : IsValid k c m) where
  one_less :
      c.cq_head_local ≢ m.cq_tail
      → sub_u32 m.cq_tail c.cq_head_local ≡ suc (sub_u32 m.cq_tail (add_u32 c.cq_head_local 1))
  one_less h = omega (arith, v.tail, v.local)

  step-IsValid :
      c.cq_head_local ≢ m.cq_tail
      → IsValid k (record c { cq_head_local = add_u32 c.cq_head_local 1 }) m
  step-IsValid h = record {
    mask = v.mask;
    cells = v.cells;
    head = v.head;
    tail = v.tail;
    local = omega arith;
    behind = omega (arith, one_less h, v.behind);
    fits = v.fits;
  }

  -- On a valid completion queue `complete` either finds nothing unread, changes nothing and returns
  -- nothing, or returns the oldest unread entry, takes it alone away, and leaves the queue valid.
  pub complete_refines :
      let (c', r) = complete c m in
      ((unread c m ≡ []) × (r ≡ none) × (c' ≡ c))
      ⊎ ((e : IoUringCqe) × (unread c m ≡ e ∷ unread c' m) × (r ≡ some (of_cqe e)) × IsValid k c' m)
  complete_refines = elim (ℕ_discrete c.cq_head_local m.cq_tail) [
    | yes h ↦
        let none_left : sub_u32 m.cq_tail c.cq_head_local ≡ 0 = omega (arith, v.tail) in
        rw (complete-none c m h) (inl (rw none_left, refl, refl))
    | no h ↦ rw (complete-some c m h) (inr (_, rw (one_less h), refl, step-IsValid h))
  ]

  -- The same, read forwards.
  pub complete_cons :
      (e : IoUringCqe) (es : List IoUringCqe)
      → unread c m ≡ e ∷ es
      → (c' : CqSide) × (complete c m ≡ (c', some (of_cqe e))) × (unread c' m ≡ es) × IsValid k c' m
  complete_cons e es u = elim complete_refines [
    | inl (empty, _, _) ↦ absurd (cc (u, empty))
    | inr (x, oldest, found, valid) ↦
        let same : e ≡ x = cc (u, oldest) in
        ((complete c m).0, rw same (ap (λ o. ((complete c m).0, o)) found), cc (u, oldest), valid)
  ]

  -- On a valid completion queue the lower bound that the iterators report is the number of unread
  -- entries.
  pub size_hint-length : size_hint c m ≡ length (unread c m)
  unfolding size_hint
  size_hint-length = sym (length-window default_cqe c.cq_mask m.cqes c.cq_head_local _)

  -- Publishing the local head reads nothing and frees the cells that were read.
  pub flush_cq_head-IsValid :
      let m' = flush_cq_head c m in IsValid k c m' × (unread c m' ≡ unread c m)
  unfolding flush_cq_head
  flush_cq_head-IsValid = (
    record {
      mask = v.mask;
      cells = v.cells;
      head = v.local;
      tail = v.tail;
      local = v.local;
      behind = omega arith;
      fits = omega (arith, v.behind, v.fits);
    },
    refl,
  )

  -- A kernel that posts only into a cell outside the published window loses nothing unread.
  pub advance_tail :
      (e : IoUringCqe)
      → sub_u32 m.cq_tail m.cq_head < c.cq_mask + 1
      → let m' : Shared = record m {
        cq_tail = add_u32 m.cq_tail 1;
        cqes = set m.cqes (slot c.cq_mask m.cq_tail) e;
      } in
        IsValid k c m' × (unread c m' ≡ unread c m ++ (e ∷ []))
  advance_tail e room =
      let one_more : sub_u32 (add_u32 m.cq_tail 1) c.cq_head_local
          ≡ suc (sub_u32 m.cq_tail c.cq_head_local) =
        omega (arith, v.tail, v.local, v.behind, cap-le v.mask) in
      let published : sub_u32 (add_u32 m.cq_tail 1) m.cq_head ≡ suc (sub_u32 m.cq_tail m.cq_head) =
        omega (arith, v.tail, v.head, cap-le v.mask) in
      (
        record {
          mask = v.mask;
          cells = length-set m.cqes (slot c.cq_mask m.cq_tail) e ∙ v.cells;
          head = v.head;
          tail = omega arith;
          local = v.local;
          behind = omega (arith, v.behind);
          fits = omega arith;
        },
        rw one_more (
            window-set default_cqe c.cq_mask m.cqes e (sub_u32 m.cq_tail c.cq_head_local)
              c.cq_head_local m.cq_tail v.mask v.cells v.local (omega (arith, v.behind))
              (omega (arith, v.tail, v.local))),
      )
