-- ===== src/Ring/Steps/Fifo.antt =====
-- src/ring/mod.rs: the order of both queues under any interleaving of steps.
use mathlib.Core.List.{append-nil, append_assoc, map-append}
use ququmatz.Base.{ℕ, ◌+◌, ◌<◌, ◌≡◌, ◌≢◌, refl, ap, ◌∙◌, [], ◌∷◌, ◌++◌, map, inl, inr, arith}
use native.Mathlib.Decide.{dec_lt}
use ququmatz.Base.Word.{sub_u32}
use ququmatz.Types.{IoUringSqe, IoUringCqe}
use ququmatz.Ring.Sq.{flush_sq_tail}
use ququmatz.Ring.Cq.{of_cqe, flush_cq_head}
use ququmatz.Ring.Sq.Queue
use ququmatz.Ring.Cq.Unread
use ququmatz.Ring.Steps.{
  State, Step, Reach, pushes, publishes, submitted, completes, syncs, takes, posts, flags, here,
  next, after_push, after_complete, after_take, after_post,
}

-- Each entry pushed was taken or is queued, each one posted was reaped or is unread: in order.
pub record IsFifo (j k : ℕ) (t : State) : Type 0 where
  pub sq_valid : Queue.IsValid j t.sq t.mem
  pub cq_valid : Unread.IsValid k t.cq t.mem
  pub sq_order : t.pushed ≡ t.taken ++ Queue.contents t.sq t.mem
  pub cq_order : map of_cqe t.posted ≡ t.reaped ++ map of_cqe (Unread.unread t.cq t.mem)

module _ {j k : ℕ} {t : State} (v : IsFifo j k t) where
  pushed-IsFifo :
      (x : IoUringSqe)
      → Queue.queued t.sq t.mem < t.sq.sq_mask + 1
      → IsFifo j k (record t {
        sq = Queue.after_s v.sq_valid;
        mem = Queue.after_m v.sq_valid x;
        pushed = t.pushed ++ (x ∷ []);
      })
  pushed-IsFifo x free = record {
    sq_valid = Queue.push-IsValid v.sq_valid x free;
    cq_valid = (Unread.IsValid-frame refl refl refl v.cq_valid).0;
    sq_order =
        rw (Queue.contents-push v.sq_valid x free, v.sq_order)
          (append_assoc t.taken (Queue.contents t.sq t.mem) (x ∷ []));
    cq_order = v.cq_order;
  }

  push-IsFifo : (x : IoUringSqe) → IsFifo j k (after_push t x)
  push-IsFifo x = elim (dec_lt (Queue.queued t.sq t.mem) (t.sq.sq_mask + 1)) [
    | yes free ↦ rw (Queue.push_free v.sq_valid x free) (pushed-IsFifo x free)
    | no full ↦
        rw (Queue.push_full v.sq_valid x (omega (arith, v.sq_valid.fits)), append-nil)
          (record {
            sq_valid = v.sq_valid;
            cq_valid = v.cq_valid;
            sq_order = v.sq_order;
            cq_order = v.cq_order;
          })
  ]

  take-IsFifo : t.mem.sq_head ≢ t.mem.sq_tail → IsFifo j k (after_take t)
  take-IsFifo h =
      let (valid, oldest) = Queue.advance_head v.sq_valid h in
      record {
        sq_valid = valid;
        cq_valid = (Unread.IsValid-frame refl refl refl v.cq_valid).0;
        sq_order = rw append_assoc (v.sq_order ∙ ap (◌++◌ t.taken) oldest);
        cq_order = v.cq_order;
      }

  complete-IsFifo : IsFifo j k (after_complete t)
  complete-IsFifo = elim (Unread.complete_refines v.cq_valid) [
    | inl (empty, nothing, same) ↦
        rw (nothing, same, append-nil)
          (record {
            sq_valid = v.sq_valid;
            cq_valid = v.cq_valid;
            sq_order = v.sq_order;
            cq_order = v.cq_order;
          })
    | inr (e, oldest, found, valid) ↦ rw found (record {
      sq_valid = v.sq_valid;
      cq_valid = valid;
      sq_order = v.sq_order;
      cq_order = rw append_assoc (v.cq_order ∙ ap (λ l. t.reaped ++ map of_cqe l) oldest);
    })
  ]

  post-IsFifo :
      (e : IoUringCqe)
      → sub_u32 t.mem.cq_tail t.mem.cq_head < t.cq.cq_mask + 1
      → IsFifo j k (after_post t e)
  post-IsFifo e room =
      let (valid, newest) = Unread.advance_tail v.cq_valid e room in
      record {
        sq_valid = (Queue.IsValid-frame refl refl refl v.sq_valid).0;
        cq_valid = valid;
        sq_order = v.sq_order;
        cq_order =
            rw (newest, map-append, map-append, v.cq_order)
              (append_assoc t.reaped (map of_cqe (Unread.unread t.cq t.mem)) (of_cqe e ∷ []));
      }

module _ {j k : ℕ} {t : State} (v : IsFifo j k t) where
  publish-IsFifo : IsFifo j k (record t { mem = flush_sq_tail t.sq t.mem })
  unfolding flush_sq_tail
  publish-IsFifo = record {
    sq_valid = (Queue.flush_sq_tail-IsValid v.sq_valid).0;
    cq_valid = (Unread.IsValid-frame refl refl refl v.cq_valid).0;
    sq_order = v.sq_order;
    cq_order = v.cq_order;
  }

  sync-IsFifo : IsFifo j k (record t { mem = flush_cq_head t.cq t.mem })
  unfolding flush_cq_head
  sync-IsFifo = record {
    sq_valid = (Queue.IsValid-frame refl refl refl v.sq_valid).0;
    cq_valid = (Unread.flush_cq_head-IsValid v.cq_valid).0;
    sq_order = v.sq_order;
    cq_order = v.cq_order;
  }

  flags-IsFifo : (n : ℕ) → IsFifo j k (record t { mem = record (t.mem) { sq_flags = n } })
  flags-IsFifo n = record {
    sq_valid = (Queue.IsValid-frame refl refl refl v.sq_valid).0;
    cq_valid = (Unread.IsValid-frame refl refl refl v.cq_valid).0;
    sq_order = v.sq_order;
    cq_order = v.cq_order;
  }

  submitted-IsFifo : (n : ℕ) → IsFifo j k (record t { sq = record (t.sq) { sq_submitted = n } })
  submitted-IsFifo n = record {
    sq_valid = Queue.submitted-IsValid v.sq_valid n;
    cq_valid = v.cq_valid;
    sq_order = v.sq_order;
    cq_order = v.cq_order;
  }

Step-IsFifo : {j k : ℕ} {t u : State} → Step t u → IsFifo j k t → IsFifo j k u
Step-IsFifo (pushes x e) v = rw e (push-IsFifo v x)
Step-IsFifo (publishes e) v = rw e (publish-IsFifo v)
Step-IsFifo (submitted n e) v = rw e (submitted-IsFifo v n)
Step-IsFifo (completes e) v = rw e (complete-IsFifo v)
Step-IsFifo (syncs e) v = rw e (sync-IsFifo v)
Step-IsFifo (takes h e) v = rw e (take-IsFifo v h)
Step-IsFifo (posts x room e) v = rw e (post-IsFifo v x room)
Step-IsFifo (flags n e) v = rw e (flags-IsFifo v n)

-- From a state whose history is in order, any interleaving of the program's calls (push, publish,
-- reap, sync) and the kernel's (take, post) keeps it so: the entries taken by the kernel and those
-- still queued are the entries pushed, in the order of the pushes, and the completions reaped and
-- those still unread are those posted, in the order of the posts. None is lost, repeated or
-- overwritten, across the wrap of the positions too.
pub Reach-IsFifo : {j k : ℕ} {t u : State} → IsFifo j k t → Reach t u → IsFifo j k u
Reach-IsFifo v here = v
Reach-IsFifo v (next r s) = Step-IsFifo s (Reach-IsFifo v r)
