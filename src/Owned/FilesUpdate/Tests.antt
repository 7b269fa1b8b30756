-- ===== src/Owned/FilesUpdate/Tests.antt =====
-- The properties of file table updates at concrete inputs: a slot is filled and the next cleared.
use ququmatz.Base.{ℕ, ◌*◌, ◌%◌, ◌≤◌, ◌≡◌, refl, ok, [], ◌∷◌, map, arith}
use ququmatz.Base.Int.{pos}
use ququmatz.Owned.{StableBuffer}
use ququmatz.Owned.Event.{Receipt}
use ququmatz.Owned.FilesUpdate.{
  Words, install, clear, raw, publish, read_words, PreparedFilesUpdate, FilesUpdated, at, published,
  into_pending, reclaim_unsubmitted, redeem, update, installed,
}
use ququmatz.Owned.FilesUpdate.Lifecycle.{published-at}

abbrev buffers : StableBuffer ℕ
buffers = record { stable_ptr = λ b. b; stable_len = λ b. 8 }

abbrev nothing : Words
nothing a = pos 0

abbrev prepared : PreparedFilesUpdate ℕ
prepared = record { store = 64; entries = install (pos 5) ∷ clear ∷ []; offset = 3; addr = 64 }

abbrev written : Words
written = publish nothing 64 (install (pos 5) ∷ clear ∷ [])

at-prepared : at buffers nothing 3 (install (pos 5) ∷ clear ∷ []) 64 ≡ ok (prepared, written)
unfolding at
at-prepared = refl

abbrev receipt : Receipt
receipt = record { ring = 1; id = 9; result = pos 1; flags = 0 }

published-at_example :
    let (sqe, ticket) = into_pending prepared 1 9 in
    let d : FilesUpdated ℕ = record {
      store = 64;
      entries = install (pos 5) ∷ clear ∷ [];
      offset = 3;
      id = 9;
      result = pos 1;
    } in
    (read_words written sqe.addr sqe.len ≡ map raw (install (pos 5) ∷ clear ∷ []))
    × (published written prepared ≡ map raw (install (pos 5) ∷ clear ∷ []))
    × (sqe.user_data ≡ 9)
    × (sqe.addr % 4 ≡ 0)
    × (4 * sqe.len ≤ 8)
    × (reclaim_unsubmitted ticket ≡ prepared)
    × (redeem ticket receipt ≡ ok d)
    × (installed (update d) ≤ sqe.len)
published-at_example =
    published-at buffers nothing written 3 (install (pos 5) ∷ clear ∷ []) 64 prepared 1 9 receipt
      at-prepared (omega arith) refl refl
