-- ===== src/Owned/FilesUpdate/Lifecycle.antt =====
-- src/owned/filesupdate.rs: an update of the file table from its preparation to its receipt.
use ququmatz.Base.{
  ℕ, ◌+◌, ◌*◌, ◌%◌, ◌^◌, ◌≤◌, ◌<◌, ◌≡◌, refl, ◌∙◌, ok, List, [], ◌∷◌, length, map, if◌then◌else◌,
  ◌==◌, arith,
}
use ququmatz.Owned.{StableBuffer, same_request}
use ququmatz.Owned.Event.{Receipt}
use ququmatz.Owned.FilesUpdate.{
  TableEntry, raw, Words, publish, read_words, PreparedFilesUpdate, PendingFilesUpdate,
  FilesUpdated, at, slots, published, into_pending, reclaim_unsubmitted, redeem, update, installed,
}
use ququmatz.Owned.Outcomes.{update_lem}

publish_before :
    (es : List TableEntry) (m : Words) (base a : ℕ) → a < base → publish m base es a ≡ m a
unfolding publish
publish_before [] m base a lt = refl
publish_before (e ∷ es) m base a lt =
    let stored = λ (x : ℕ). if x == base then raw e else m x in
    let here : stored a ≡ m a = ground arith in
    publish_before es stored (base + 4) a (omega arith) ∙ here

-- The words that are written are those of the entries, in order.
read_words-publish :
    (es : List TableEntry) (m : Words) (base : ℕ)
    → read_words (publish m base es) base (length es) ≡ map raw es
unfolding publish read_words
read_words-publish [] m base = refl
read_words-publish (e ∷ es) m base =
    let stored = λ (x : ℕ). if x == base then raw e else m x in
    let here : stored base ≡ raw e = ground arith in
    rw
      (
        publish_before es stored (base + 4) base (omega arith),
        here,
        read_words-publish es stored (base + 4),
      )
      refl

module _ {S : Type 0} (stable : StableBuffer S) where
  -- What `at` has checked and written when it succeeds.
  at_ok :
      (m m' : Words) (offset : ℕ) (entries : List TableEntry) (store : S)
      (p : PreparedFilesUpdate S)
      → at stable m offset entries store ≡ ok (p, m')
      → let base = stable.stable_ptr store in
        (0 < length entries)
        × (4 * length entries ≤ stable.stable_len store)
        × (base % 4 ≡ 0)
        × (record { store = store; entries = entries; offset = offset; addr = base } ≡ p)
        × (publish m base entries ≡ m')
  unfolding at
  at_ok m m' offset entries store p e = ground arith

  redeem_own :
      (p : PendingFilesUpdate S) (receipt : Receipt)
      → receipt.ring ≡ p.ring
      → receipt.id ≡ p.id
      → redeem p receipt
        ≡ ok (record {
          store = p.store;
          entries = p.entries;
          offset = p.offset;
          id = p.id;
          result = receipt.result;
        })
  unfolding redeem same_request
  redeem_own p receipt r i = ground arith

  -- When an update of the file table of fewer than 2 ^ 32 entries is prepared, the kernel that
  -- reads as many words as the entry of the pushed request says, from the address in it, which is
  -- aligned and in the storage, finds the words of the entries in order, and so does the program;
  -- the entry carries its identity; taking the ticket back gives the prepared request; the receipt
  -- of its own completion redeems it for the storage and the result, which counts at most as many
  -- slots as the entry named.
  pub published-at :
      (m m' : Words) (offset : ℕ) (entries : List TableEntry) (store : S)
      (p : PreparedFilesUpdate S) (ring id : ℕ) (receipt : Receipt)
      → at stable m offset entries store ≡ ok (p, m')
      → length entries < 2 ^ 32
      → receipt.ring ≡ ring
      → receipt.id ≡ id
      → let (sqe, ticket) = into_pending p ring id in
        let d : FilesUpdated S = record {
          store = store;
          entries = entries;
          offset = offset;
          id = id;
          result = receipt.result;
        } in
        (read_words m' sqe.addr sqe.len ≡ map raw entries)
        × (published m' p ≡ map raw entries)
        × (sqe.user_data ≡ id)
        × (sqe.addr % 4 ≡ 0)
        × (4 * sqe.len ≤ stable.stable_len store)
        × (reclaim_unsubmitted ticket ≡ p)
        × (redeem ticket receipt ≡ ok d)
        × (installed (update d) ≤ sqe.len)
  unfolding into_pending reclaim_unsubmitted published slots update
  published-at m m' offset entries store p ring id receipt e small r i =
      let base = stable.stable_ptr store in
      let (some_entry, room, aligned, same, written) = at_ok m m' offset entries store p e in
      let all_of_them : length entries % 2 ^ 32 ≡ length entries = omega arith in
      rw (← same, ← written, all_of_them)
        (
          read_words-publish entries m base,
          read_words-publish entries m base,
          refl,
          aligned,
          room,
          refl,
          redeem_own
              (record {
                store = store;
                ring = ring;
                id = id;
                entries = entries;
                offset = offset;
                addr = base;
              })
              receipt r i,
          (update_lem receipt.result (length entries)).0,
        )
