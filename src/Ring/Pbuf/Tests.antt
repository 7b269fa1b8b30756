-- ===== src/Ring/Pbuf/Tests.antt =====
-- The properties of buffer pools at concrete inputs: two buffers of 64 bytes.
use ququmatz.Base.{
  ℕ, ◌<◌, ◌≤◌, ◌≡◌, refl, sym, subst, ◌⊎◌, true, ok, err, ap, some, List, [], ◌∷◌, replicate, arith,
}
use ququmatz.Ring.Pbuf.{
  ProvidedBufferRing, BufRing, IoUringBuf, AcknowledgedBuffer, acknowledge, ledger_get, ledger_set,
  out_of_range, already_acknowledged, recycle_and_commit, recycle, recycle_raw, commit, populate,
}
use ququmatz.Ring.Pbuf.Tokens.{Pool, acknowledged, start, further, count, IsFresh, one_token}
use ququmatz.Ring.Pbuf.Register.{
  Memory, Registered, register_provided_buffers_on, register_mapped, validated, checked_ring_bytes,
  new_pool, drop_pool,
}
use ququmatz.Ring.Resources.{RingResources, retain}
use ququmatz.Ring.Pbuf.Register.Leak.{IsMapping}
use ququmatz.Ring.Pbuf.Register.Drop.{drop-register}
use ququmatz.Ring.Pbuf.Circulation
use ququmatz.Ring.Pbuf.Circulation.{Circuit, lease_next, IsCirculating}
use ququmatz.Ring.Pbuf.Circulation.Fresh.{new_pool-IsCirculating}

abbrev empty : List ℕ
empty = replicate 4096 0

abbrev blank : IoUringBuf
blank = record { addr = 0; len = 0; bid = 0 }

abbrev memory : BufRing
memory = record { bufs = blank ∷ blank ∷ []; tail = 0 }

abbrev ring : ProvidedBufferRing
ring = record {
  bgid = 1;
  mask = 1;
  entries = 2;
  bufs_addr = 4096;
  buf_size = 64;
  tail_local = 2;
  delivered = empty;
}

abbrev fresh : Pool
fresh = record { ring = ring; memory = memory; tokens = [] }

fresh-IsFresh : IsFresh fresh
fresh-IsFresh = record { entries = omega arith; none_out = refl; clear = refl }

-- Buffer 1 has been delivered and acknowledged.
abbrev lent : ProvidedBufferRing
lent = record ring { delivered = ledger_set empty 1 true }

abbrev token : AcknowledgedBuffer
token = record { buf_id = 1; len = 10 }

acknowledges : acknowledge ring 1 10 ≡ (lent, ok token)
unfolding acknowledge ledger_get
acknowledges = refl

abbrev after : Pool
after = record { ring = lent; memory = memory; tokens = token ∷ [] }

one_token_example :
    (((2 ≤ 1) ⊎ (64 < 10))
      × (count 1 (token ∷ []) ≤ 1)
      × (acknowledge lent 1 10 ≡ (lent, err (out_of_range 1 10))))
    ⊎ ((count 1 (token ∷ []) ≡ 1) × (acknowledge lent 1 10 ≡ (lent, err (already_acknowledged 1))))
    ⊎ ((count 1 (token ∷ []) ≡ 0)
        × ((acknowledge lent 1 10).1 ≡ ok (record { buf_id = 1; len = 10 })))
one_token_example =
    one_token fresh after 1 10 fresh-IsFresh
      (further start (acknowledged ring lent memory [] 1 10 token acknowledges)) (omega arith)

-- Mappings as a stack, and a kernel that refuses the registration.
abbrev popped : List (ℕ × ℕ) → List (ℕ × ℕ)
popped [] = []
popped (x ∷ xs) = xs

abbrev accepting : Memory (List (ℕ × ℕ))
accepting = record {
  mmap = λ s n. ((4096, n) ∷ s, ok 4096);
  munmap = λ s a n. popped s;
  register = λ s reg. (s, ok 0);
  unregister = λ s bgid. s;
}

accepting-IsMapping : IsMapping accepting (λ s. s)
accepting-IsMapping = record {
  mmap_ok = λ s n a e. cc e;
  mmap_err = λ s n x e. absurd (cc e);
  munmap = λ s a n rest e. rw e refl;
  register = λ s reg. refl;
  unregister = λ s bgid. refl;
}

abbrev shared : RingResources
shared = record {
  refcount = 2;
  fd = 5;
  sq_ring = record { addr = 4096; len = 512 };
  cq_ring = record { addr = 0; len = 0 };
  sqes_region = record { addr = 8192; len = 128 };
  self_page = record { addr = 12288; len = 4096 };
}

abbrev registered : Registered
registered = record {
  pool = (new_pool 1 2 64 4096 memory).0;
  memory = (new_pool 1 2 64 4096 memory).1;
  regions = record { ring_addr = 4096; ring_len = 32; bufs_len = 128 };
  resources = record shared { refcount = 3 };
}

registers :
    register_provided_buffers_on accepting 64 shared [] 1 2 64 0 memory
    ≡ ((4096, 128) ∷ (4096, 32) ∷ [], ok registered)
unfolding register_provided_buffers_on register_mapped validated checked_ring_bytes new_pool retain
registers = refl

drop-register_example :
    let (s', r) = register_provided_buffers_on accepting 64 shared [] 1 2 64 0 memory in
    let (s2, kept, calls) = drop_pool accepting s' registered in
    (s2 ≡ []) × (kept ≡ some shared) × (calls ≡ [])
drop-register_example =
    drop-register accepting (λ s. s) accepting-IsMapping 64 shared [] 1 2 64 0 memory registered
      (omega arith) (omega arith) (ap (λ r. r.1) registers)

-- The first buffer is leased and comes back.
abbrev around : Circuit
around = record {
  ring = record ring { tail_local = 3 };
  memory = record {
    bufs =
        record { addr = 4096; len = 64; bid = 0 } ∷ record { addr = 4160; len = 64; bid = 1 } ∷ [];
    tail = 3;
  };
  head = 1;
  leases = [];
}

abbrev full : Circuit
full = record {
  ring = ring;
  memory = record {
    bufs =
        record { addr = 4096; len = 64; bid = 0 } ∷ record { addr = 4160; len = 64; bid = 1 } ∷ [];
    tail = 2;
  };
  head = 0;
  leases = [];
}

full-taken : Circulation.Step full (lease_next full)
full-taken = Circulation.taken full (omega arith)

full-returned : Circulation.Step (lease_next full) around
unfolding recycle_and_commit recycle recycle_raw commit
full-returned = Circulation.returned ring around.ring full.memory around.memory 1 0 [] [] refl

full-around : Circulation.Reach full around
full-around = Circulation.further (Circulation.further Circulation.start full-taken) full-returned

new_pool-full :
    record {
      ring = (new_pool 1 2 64 4096 memory).0;
      memory = (new_pool 1 2 64 4096 memory).1;
      head = 0;
      leases = [];
    }
    ≡ full
unfolding new_pool populate recycle_raw commit
new_pool-full = refl

new_pool-around :
    Circulation.Reach
      (record {
        ring = (new_pool 1 2 64 4096 memory).0;
        memory = (new_pool 1 2 64 4096 memory).1;
        head = 0;
        leases = [];
      })
      around
new_pool-around = subst (λ c. Circulation.Reach c around) (sym new_pool-full) full-around

new_pool-IsCirculating_example : IsCirculating 1 around
new_pool-IsCirculating_example =
    new_pool-IsCirculating 1 2 64 4096 memory around (record { width = omega arith; ones = refl })
      (omega arith) (omega arith) refl new_pool-around
