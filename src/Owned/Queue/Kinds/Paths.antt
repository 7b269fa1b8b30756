-- ===== src/Owned/Queue/Kinds/Paths.antt =====
-- src/owned: what the requests that name paths or own nothing keep to the queue and to their receipts.
use ququmatz.Base.{ℕ, ◌≡◌, refl, arith}
use ququmatz.Base.Int.{ℤ, try_u32}
use ququmatz.Owned.{same_request}
use ququmatz.Owned.FilesUpdate
use ququmatz.Owned.Open
use ququmatz.Owned.Direct
use ququmatz.Owned.PathOp
use ququmatz.Owned.Openat2
use ququmatz.Owned.Rename
use ququmatz.Owned.Link
use ququmatz.Owned.Direct.{filled}
use ququmatz.Owned.Queue.{updated_files}
use ququmatz.Owned.Queue.Push.{IsLawful}
use ququmatz.Owned.Queue.Requests.{
  opened, opened_how, directly_opened, path_operation, renamed, linked,
}
use ququmatz.Owned.Queue.Cycle.{IsRedeemable}

module _ {F T : Type 0} where
  pub opened_how-IsLawful : IsLawful (opened_how {F = F} {T = T})
  unfolding Openat2.into_pending Openat2.reclaim_unsubmitted
  opened_how-IsLawful = record { tagged = λ p ring id. refl; back = λ p ring id. refl }

  abbrev pub opened_how_done : Openat2.PreparedOpenat2 F T → ℕ → ℕ → ℤ → Openat2.Opened2 F T
  opened_how_done p ring id z = record {
    path = p.path;
    how_store = p.how_store;
    file = try_u32 z;
    id = id;
    result = z;
  }

  pub opened_how-IsRedeemable :
      IsRedeemable (opened_how {F = F} {T = T}) Openat2.redeem opened_how_done
  unfolding Openat2.into_pending Openat2.redeem same_request
  opened_how-IsRedeemable = record {
    own = λ p receipt. ground arith;
    foreign = λ p ring id receipt away. ground arith;
  }

  pub renamed-IsLawful : IsLawful (renamed {F = F} {T = T})
  unfolding Rename.into_pending Rename.reclaim_unsubmitted
  renamed-IsLawful = record { tagged = λ p ring id. refl; back = λ p ring id. refl }

  abbrev pub renamed_done : Rename.PreparedRename F T → ℕ → ℕ → ℤ → Rename.RenameCompleted F T
  renamed_done p ring id z = record { from = p.from; to = p.to; mode = p.mode; id = id; result = z }

  pub renamed-IsRedeemable : IsRedeemable (renamed {F = F} {T = T}) Rename.redeem renamed_done
  unfolding Rename.into_pending Rename.redeem same_request
  renamed-IsRedeemable = record {
    own = λ p receipt. ground arith;
    foreign = λ p ring id receipt away. ground arith;
  }

  linked_tagged :
      (p : Link.PreparedLink F T) (ring id : ℕ) → (Link.into_pending p ring id).0.user_data ≡ id
  unfolding Link.into_pending
  linked_tagged p ring id = elim p.kind [
    | Link.symlink dir ↦ refl
    | Link.link dir other flags ↦ refl
  ]

  pub linked-IsLawful : IsLawful (linked {F = F} {T = T})
  unfolding Link.into_pending Link.reclaim_unsubmitted
  linked-IsLawful = record {
    tagged = λ p ring id. linked_tagged p ring id;
    back = λ p ring id. refl;
  }

  abbrev pub linked_done : Link.PreparedLink F T → ℕ → ℕ → ℤ → Link.LinkCompleted F T
  linked_done p ring id z = record {
    old = p.old;
    dest = p.dest;
    kind = p.kind;
    id = id;
    result = z;
  }

  pub linked-IsRedeemable : IsRedeemable (linked {F = F} {T = T}) Link.redeem linked_done
  unfolding Link.into_pending Link.redeem same_request
  linked-IsRedeemable = record {
    own = λ p receipt. ground arith;
    foreign = λ p ring id receipt away. ground arith;
  }

module _ {S : Type 0} where
  abbrev pub updated_files_done :
      FilesUpdate.PreparedFilesUpdate S → ℕ → ℕ → ℤ → FilesUpdate.FilesUpdated S
  updated_files_done p ring id z = record {
    store = p.store;
    entries = p.entries;
    offset = p.offset;
    id = id;
    result = z;
  }

  pub updated_files-IsRedeemable :
      IsRedeemable (updated_files {S = S}) FilesUpdate.redeem updated_files_done
  unfolding FilesUpdate.into_pending FilesUpdate.redeem same_request
  updated_files-IsRedeemable = record {
    own = λ p receipt. ground arith;
    foreign = λ p ring id receipt away. ground arith;
  }

  pub opened-IsLawful : IsLawful (opened {S = S})
  unfolding Open.into_pending Open.reclaim_unsubmitted
  opened-IsLawful = record { tagged = λ p ring id. refl; back = λ p ring id. refl }

  abbrev pub opened_done : Open.PreparedOpen S → ℕ → ℕ → ℤ → Open.Opened S
  opened_done p ring id z = record { path = p.path; file = try_u32 z; id = id; result = z }

  pub opened-IsRedeemable : IsRedeemable (opened {S = S}) Open.redeem opened_done
  unfolding Open.into_pending Open.redeem same_request
  opened-IsRedeemable = record {
    own = λ p receipt. ground arith;
    foreign = λ p ring id receipt away. ground arith;
  }

  pub directly_opened-IsLawful : IsLawful (directly_opened {S = S})
  unfolding Direct.into_pending Direct.reclaim_unsubmitted
  directly_opened-IsLawful = record { tagged = λ p ring id. refl; back = λ p ring id. refl }

  abbrev pub directly_opened_done : Direct.PreparedDirectOpen S → ℕ → ℕ → ℤ → Direct.DirectOpened S
  directly_opened_done p ring id z = record {
    path = p.path;
    slot = filled p.target ring z;
    id = id;
    result = z;
  }

  pub directly_opened-IsRedeemable :
      IsRedeemable (directly_opened {S = S}) Direct.redeem directly_opened_done
  unfolding Direct.into_pending Direct.redeem same_request
  directly_opened-IsRedeemable = record {
    own = λ p receipt. ground arith;
    foreign = λ p ring id receipt away. ground arith;
  }

  path_operation_tagged :
      (p : PathOp.PreparedPathOp S) (ring id : ℕ) → (PathOp.into_pending p ring id).0.user_data ≡ id
  unfolding PathOp.into_pending
  path_operation_tagged p ring id = elim p.kind [
    | PathOp.unlink ↦ refl
    | PathOp.rmdir ↦ refl
    | PathOp.mkdir mode ↦ refl
  ]

  pub path_operation-IsLawful : IsLawful (path_operation {S = S})
  unfolding PathOp.into_pending PathOp.reclaim_unsubmitted
  path_operation-IsLawful = record {
    tagged = λ p ring id. path_operation_tagged p ring id;
    back = λ p ring id. refl;
  }

  abbrev pub path_operation_done : PathOp.PreparedPathOp S → ℕ → ℕ → ℤ → PathOp.PathOpCompleted S
  path_operation_done p ring id z = record { path = p.path; kind = p.kind; id = id; result = z }

  pub path_operation-IsRedeemable :
      IsRedeemable (path_operation {S = S}) PathOp.redeem path_operation_done
  unfolding PathOp.into_pending PathOp.redeem same_request
  path_operation-IsRedeemable = record {
    own = λ p receipt. ground arith;
    foreign = λ p ring id receipt away. ground arith;
  }
